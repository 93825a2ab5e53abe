-- ===== src/Device.antt =====
-- driver/main.c: open, close, poll and the mapping of the device file. A file's private data is its
-- ring buffer, if it has one; ioctl is in Device/Ioctl.
pub mod Laws
pub mod Ioctl
pub mod Module
pub mod Tests
use schedmon.Prelude.{
  ℕ, ◌+◌, ◌-◌, ◌/◌, ◌%◌, ◌^◌, Bool, true, false, not, ◌&&◌, Option, none, some, ltb, bit_or,
  if◌then◌else◌, List, [],
}
use schedmon.Ring.Index.{page_shift, u32, sub32, add32}
use schedmon.Ring.{
  RingBuffer, Pages, smon_rb_is_empty, smon_rb_is_active, smon_rb_batch_available, smon_rb_get_page,
}
use schedmon.Ring.Create.{
  Created, refused, no_memory, unwound, created, smon_create_rb, smon_destroy_rb,
}

-- `count` of `smon_device`, and the private data of a file.
pub record DeviceFile : Type 0 where
  pub count : ℕ
  pub rb : Option RingBuffer

unfoldable pub smon_open : DeviceFile → DeviceFile
smon_open d = record d { count = add32 d.count 1 }

unfoldable pub smon_release : DeviceFile → DeviceFile
smon_release d = record d { rb = none; count = sub32 d.count 1 }

-- The event masks are the system's: POLLIN, POLLRDNORM and POLLHUP.
unfoldable pub smon_poll : ℕ → ℕ → ℕ → Option RingBuffer → ℕ
smon_poll pollin pollrdnorm pollhup none = 0
smon_poll pollin pollrdnorm pollhup (some rb) =
    if smon_rb_batch_available rb
    then if smon_rb_is_active rb then bit_or pollin pollrdnorm else pollhup
    else if not (smon_rb_is_empty rb) && not (smon_rb_is_active rb)
    then pollhup
    else 0

-- The pages that the end of a mapping frees.
unfoldable pub smon_vma_close : Option RingBuffer → List ℕ × Option RingBuffer
smon_vma_close none = ([], none)
smon_vma_close (some rb) = (smon_destroy_rb rb, none)

-- The page of the buffer that a fault at page `pgoff` of the mapping gets.
unfoldable pub smon_vma_fault : RingBuffer → ℕ → Option ℕ
smon_vma_fault rb pgoff = smon_rb_get_page rb pgoff

pub data Mapped : Type 0 where
  enodev : Mapped
  mapped_rb : RingBuffer → Mapped

unfoldable pub from_created : Created → Mapped
from_created refused = enodev
from_created no_memory = enodev
from_created (unwound u) = enodev
from_created (created rb) = mapped_rb rb

-- The number of pages is an `unsigned long`, which smon_create_rb takes as an `unsigned int`;
-- `is_power_of_2` is the system's.
unfoldable pub smon_mmap : (ℕ → Bool) → Bool → Bool → (ℕ → Bool) → Pages → ℕ → ℕ → Mapped
smon_mmap is_power_of_2 get_rb get_data get_page content vm_start vm_end =
    let n_pages = (vm_end + 2 ^ 64 - vm_start) % 2 ^ 64 / 2 ^ page_shift in
    if ltb n_pages 2
    then enodev
    else if not (is_power_of_2 n_pages)
    then enodev
    else from_created (smon_create_rb get_rb get_data get_page content (n_pages % u32))
