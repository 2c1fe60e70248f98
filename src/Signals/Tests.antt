-- ===== src/Signals/Tests.antt =====
-- A run of the theorem about signal_events: the signal 15 is watched and received.
use dasynq.Prelude.{refl, ℕ, ◌+◌, ◌≡◌, Bool, true, false, not, none, some, List, [], ◌∷◌}
use dasynq.Signals.Defs.{Siginfo, signal_events, process_signal_mask}
use dasynq.Signals.Masks.{Call, add, process, Agree, known_by, calls, inverse, signal_events-Agree}

abbrev handlers_of : ℕ → ℕ → ℕ
handlers_of signo k = k

abbrev received : Siginfo → ℕ → ℕ → ℕ × Bool
received i w n = (n + w, true)

abbrev terminate : Siginfo
terminate = record { si_signo = 15; info = 0 }

abbrev twice : List Call
twice = add 15 7 ∷ process terminate ∷ []

signal_events-Agree_example :
    let s =
      calls handlers_of handlers_of received true twice (signal_events true (λ n. some 99) 0 0) in
    let t =
      calls handlers_of handlers_of received false twice (signal_events false (λ n. none) 0 0) in
    Agree handlers_of handlers_of received (known_by twice (λ n. false)) s t
    × (let r =
          process_signal_mask true handlers_of handlers_of received terminate
            (inverse s.active_sigmask)
            s in
        (n : ℕ) → r.1 n ≡ not (r.0.active_sigmask n))
    × (let r =
          process_signal_mask false handlers_of handlers_of received terminate
            (inverse t.active_sigmask)
            t in
        (n : ℕ) → r.1 n ≡ not (r.0.active_sigmask n))
signal_events-Agree_example =
    signal_events-Agree handlers_of handlers_of received twice (λ n. some 99) (λ n. none) 0 0
      terminate (tt, (refl, tt))
