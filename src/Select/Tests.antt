-- ===== src/Select/Tests.antt =====
-- Runs of the theorems about select_events.
use dasynq.Prelude.{none, true, refl}
use dasynq.EventLoop.Armed.{IsMechanism}
use dasynq.Select.Defs.{BaseEvents, select_mechanism}
use dasynq.Select.Refine.{reads, writes, select_events-IsMechanism}

abbrev base : BaseEvents
base = record {
  interrupt_after_signal_add = true;
  rearm_signal_watch_nolock = λ n w s. s;
  remove_signal_watch_nolock = λ n s. s;
  unreserve_child_watch_nolock = λ w s. s;
  enable_timer_nolock = λ w b c s. (s, none);
  remove_timer_nolock = λ w c s. s;
  interrupt_wait = λ s. s;
  add_signal_watch_nolock = λ n w s. (s, true);
  reserve_child_watch_nolock = λ w s. (s, true);
  add_child_watch_nolock = λ w p s. (s, true);
  add_timer_nolock = λ w c s. (s, true);
}

select_events-IsMechanism_example : IsMechanism (select_mechanism base) reads writes
select_events-IsMechanism_example = select_events-IsMechanism base (λ s f. (refl, refl))
