-- ===== src/Rtc/Wait.antt =====
-- The wait of `rtc_read` for the next interrupt.
use cheet_os.Base.{
  ℕ, zero, suc, ◌≡◌, refl, Bool, true, false, arith, none, some, List, ◌∷◌, ◌++◌, replicate,
}
use cheet_os.Io.{Device}
use cheet_os.Rtc.{Rtc, rtc_interrupt_handler, rtc_read}

module _ (device : Device) where
  -- While no interrupt comes and none is pending, the call has not returned.
  pub rtc_read_blocks :
      (k : ℕ) (r : Rtc) → r.intflag ≡ 0 → rtc_read device (replicate k false) r ≡ none
  unfolding rtc_read
  rtc_read_blocks zero r h = refl
  rtc_read_blocks (suc k) r h = ground (arith, rtc_read_blocks k r h)

  -- With none pending, `rtc_read` returns 0 at the poll after the first interrupt, having served
  -- that one only, and leaves none pending.
  pub rtc_read_next :
      (k : ℕ) (later : List Bool) (r : Rtc)
      → r.intflag ≡ 0
      → rtc_read device (replicate k false ++ true ∷ later) r
        ≡ some (0, record (rtc_interrupt_handler device r) { intflag = 0 })
  unfolding rtc_read rtc_interrupt_handler
  rtc_read_next zero later r h = refl
  rtc_read_next (suc k) later r h = ground (arith, rtc_read_next k later r h)

  -- An interrupt that came before the call is taken for the next one: the call returns at once,
  -- whatever the schedule.
  pub rtc_read_pending :
      (schedule : List Bool) (r : Rtc)
      → r.intflag ≡ 1
      → rtc_read device (false ∷ schedule) r ≡ some (0, record r { intflag = 0 })
  unfolding rtc_read
  rtc_read_pending schedule r h = ground arith
