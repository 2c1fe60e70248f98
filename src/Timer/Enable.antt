-- ===== src/Timer/Enable.antt =====
-- enable_timer does not lose an expiry that was counted while the timer was disabled.
use dasynq.Prelude.{
  ℕ, ◌+◌, ◌≡◌, refl, Bool, true, false, not, ◌&&◌, List, [], ◌∷◌, ◌==◌, if◌then◌else◌, arith,
}
use dasynq.Flags.{ClockType, monotonic, system}
use dasynq.Heap.Valid.{queued}
use dasynq.Timer.Defs.{
  TimerData, TimerBase, TimerQueue, Processing, queue_for_clock, put_queue, set_data,
}
use dasynq.Timer.Calls.{enable_timer_nolock, enable_data, clear_expiries, set_enabled}
use dasynq.Timer.Round.{Ring, deliver, reported}

abbrev pub other_clock : ClockType → ClockType
other_clock monotonic = system
other_clock system = monotonic

-- whether an expiry that was counted is now reported
abbrev pub is_pending : Bool → TimerData → Bool
is_pending enable d = not (d.expiry_count == 0) && enable

-- the report of all expiries counted, if there is one
abbrev pub reports : Bool → ℕ → TimerData → List Ring
reports enable h d =
    if is_pending enable d
    then record { hnd = h; userdata = d.userdata; expiries = d.expiry_count } ∷ []
    else []

module _ {B : Type 0} (receive : ℕ → ℕ → ℕ → B → B) (h : ℕ) (enable : Bool) where
  module _ (q : TimerQueue) (b : B) (s : Processing B) (rs : List Ring) where
    record Data : Type 0 where
      rings : rs ≡ reports enable h (q.node_data h)
      counted : reported h rs + (s.queue.node_data h).expiry_count ≡ (q.node_data h).expiry_count
      none_left : (if enable then (s.queue.node_data h).expiry_count else 0) ≡ 0
      enabled :
          (s.queue.node_data h).enabled
          ≡ (if is_pending enable (q.node_data h) then (q.node_data h).enabled else enable)
      userdata : (s.queue.node_data h).userdata ≡ (q.node_data h).userdata
      interval : (s.queue.node_data h).interval_time ≡ (q.node_data h).interval_time
      others :
          (g : ℕ) → s.queue.node_data g ≡ (if g == h then s.queue.node_data h else q.node_data g)
      entry : (g : ℕ) → queued s.queue g ≡ queued q g
      base : s.base ≡ deliver receive rs b

  enable_data-Data :
      (pending : Bool) (q : TimerQueue) (b : B)
      → is_pending enable (q.node_data h) ≡ pending
      → (rs : List Ring) × Data q b
          (enable_data receive pending h enable (record { queue = q; base = b }))
          rs
  unfolding enable_data set_data clear_expiries set_enabled
  enable_data-Data true q b e = (
    record { hnd = h; userdata = (q.node_data h).userdata; expiries = (q.node_data h).expiry_count }
        ∷ [],
    record {
      rings = rw e refl;
      counted = ground arith;
      none_left = ground arith;
      enabled = ground (arith, e);
      userdata = ground arith;
      interval = ground arith;
      others = λ g. ground arith;
      entry = λ g. refl;
      base = refl;
    },
  )
  enable_data-Data false q b e = (
    [],
    record {
      rings = rw e refl;
      counted = ground arith;
      none_left = ground (arith, e);
      enabled = ground (arith, e);
      userdata = ground arith;
      interval = ground arith;
      others = λ g. ground arith;
      entry = λ g. refl;
      base = refl;
    },
  )

  -- What enable_timer leaves: `rs` are its reports.
  pub record Enabled (clock : ClockType) (t r : TimerBase B) (rs : List Ring) : Type 0 where
    pub rings : rs ≡ reports enable h ((queue_for_clock clock t).node_data h)
    pub userdata :
        ((queue_for_clock clock r).node_data h).userdata
        ≡ ((queue_for_clock clock t).node_data h).userdata
    pub interval :
        ((queue_for_clock clock r).node_data h).interval_time
        ≡ ((queue_for_clock clock t).node_data h).interval_time
    pub counted :
        reported h rs + ((queue_for_clock clock r).node_data h).expiry_count
        ≡ ((queue_for_clock clock t).node_data h).expiry_count
    pub none_left : (if enable then ((queue_for_clock clock r).node_data h).expiry_count else 0) ≡ 0
    pub enabled : ((queue_for_clock clock r).node_data h).enabled ≡ (
        if is_pending enable ((queue_for_clock clock t).node_data h)
        then ((queue_for_clock clock t).node_data h).enabled
        else enable)
    pub others :
        (g : ℕ)
        → (queue_for_clock clock r).node_data g ≡ (
            if g == h
            then (queue_for_clock clock r).node_data h
            else (queue_for_clock clock t).node_data g)
    pub entry : (g : ℕ) → queued (queue_for_clock clock r) g ≡ queued (queue_for_clock clock t) g
    pub other_queue : queue_for_clock (other_clock clock) r ≡ queue_for_clock (other_clock clock) t
    pub base : r.base ≡ deliver receive rs t.base

  -- enable_timer, for either clock, changes no timeout, no other timer and no timer of the other clock, and loses
  -- no expiry: those it reports and those still counted are those that were counted. It reports if and only if
  -- it enables the timer and some expiries are counted; it then reports once, all of them with the timer's own
  -- user data and handle, and the timer stays enabled or disabled as it was. Otherwise it reports nothing, and
  -- only enables or disables the timer.
  pub enable_timer_nolock-Enabled :
      (clock : ClockType) (t : TimerBase B)
      → (rs : List Ring) × Enabled clock t (enable_timer_nolock receive h enable clock t) rs
  unfolding enable_timer_nolock queue_for_clock put_queue
  enable_timer_nolock-Enabled monotonic t =
      let (rs, d) = enable_data-Data _ t.mono_timer_queue t.base refl in
      (
        rs,
        record {
          rings = d.rings;
          userdata = d.userdata;
          interval = d.interval;
          counted = d.counted;
          none_left = d.none_left;
          enabled = d.enabled;
          others = d.others;
          entry = d.entry;
          other_queue = refl;
          base = d.base;
        },
      )
  enable_timer_nolock-Enabled system t =
      let (rs, d) = enable_data-Data _ t.timer_queue t.base refl in
      (
        rs,
        record {
          rings = d.rings;
          userdata = d.userdata;
          interval = d.interval;
          counted = d.counted;
          none_left = d.none_left;
          enabled = d.enabled;
          others = d.others;
          entry = d.entry;
          other_queue = refl;
          base = d.base;
        },
      )
