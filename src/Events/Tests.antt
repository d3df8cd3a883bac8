-- ===== src/Events/Tests.antt =====
-- One reader and one message.
use autok3s.Base.{true, [], ◌∷◌, ◌≡◌, ◌≢◌, refl, contains}
use autok3s.Events.{
  selecting, closed, free, publishing, Broadcaster, Run, stop, more, register, begin, set_phase,
  new_broadcaster, accepted,
}
use autok3s.Events.Deadlock.{reader_deadlocks}
use autok3s.Events.Open.{pending_open}

abbrev registered : Broadcaster
registered = record {
  subs = "w" ∷ [];
  phase = set_phase "w" selecting new_broadcaster.phase;
  lock = free;
}

abbrev sending : Broadcaster
sending = record registered { lock = publishing (accepted (λ s. true) registered.subs) }

reader_deadlocks_example :
    (c : Broadcaster) × Run registered c × ((d : Broadcaster) → Run c d → d.lock ≢ free)
unfolding contains
reader_deadlocks_example = reader_deadlocks registered "w" (λ s. true) refl refl refl refl

pending_open_example : (sending.phase "w" ≢ closed) × (contains sending.subs "w" ≡ true)
unfolding contains accepted
pending_open_example =
    pending_open "w" sending
      (more new_broadcaster registered sending (register new_broadcaster "w" refl refl)
        (more registered sending sending (begin registered (λ s. true) refl) (stop sending)))
      refl
