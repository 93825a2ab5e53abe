-- ===== src/Device/Laws.antt =====
-- What a reader of the device file can rely on.
use schedmon.Prelude.{
  ℕ, ◌-◌, ◌^◌, ◌≤◌, ◌<◌, ◌≡◌, arith, ◌&&◌, some, ltb, bit_or, if◌then◌else◌, List, ◌==◌,
}
use schedmon.Ring.{RingBuffer, smon_rb_is_empty, smon_rb_is_active, smon_rb_batch_available, count}
use schedmon.Ring.Layout.{Entry}
use schedmon.Ring.Valid.{count-distance}
use schedmon.Ring.Write.{Holds}
use schedmon.Device.{smon_poll}

-- For a buffer that holds the records between its two ends, with less than 2^31 writers: while
-- there are writers, poll reports data once a batch of samples is there, and nothing before;
-- when there are none left, it reports the end as long as bytes are unread or a batch is there.
pub smon_poll-Holds :
    (pollin pollrdnorm pollhup : ℕ) {rb : RingBuffer} {t h : ℕ} {es : List Entry}
    → Holds rb t h es
    → rb.active < 2 ^ 31
    → smon_poll pollin pollrdnorm pollhup (some rb) ≡ (
        if 0 == rb.active
        then if t == h && ltb rb.items rb.batch then 0 else pollhup
        else if ltb rb.items rb.batch
        then 0
        else bit_or pollin pollrdnorm)
unfolding smon_poll smon_rb_is_empty smon_rb_is_active smon_rb_batch_available
smon_poll-Holds pollin pollrdnorm pollhup {rb} {t} {h} {es} v few =
    let unread : count rb ≡ h - t = count-distance v.valid v.ends in
    let order : t ≤ h = v.ends.behind in ground arith
