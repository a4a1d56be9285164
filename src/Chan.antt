-- ===== src/Chan.antt =====
-- Go's `select` between sending on a channel and the cancellation of a context, as the listeners
-- write it. The scheduler chooses the moment at which the statement proceeds.
use reloader.Prelude.{Bool, true, false, ◌≡◌, refl, arith, ◌⊎◌, inl, inr}

-- What is ready when the statement proceeds: the channel alone, the context alone, or both, in
-- which case Go picks one at random.
pub data Ready : Type 0 where
  room : Ready
  done : Ready
  either : Bool → Ready

pub data Select : Type 0 where
  sent : Select
  cancelled : Select

unfoldable pub select_send : Ready → Select
select_send room = sent
select_send done = cancelled
select_send (either true) = sent
select_send (either false) = cancelled

abbrev pub is_done : Ready → Bool
is_done room = false
is_done done = true
is_done (either _) = true

pub done_of_cancelled : (r : Ready) → select_send r ≡ cancelled → is_done r ≡ true
unfolding select_send
done_of_cancelled room e = ground arith
done_of_cancelled done e = refl
done_of_cancelled (either _) e = refl

pub select_send-cases : (r : Ready) → (select_send r ≡ sent) ⊎ (select_send r ≡ cancelled)
unfolding select_send
select_send-cases room = inl refl
select_send-cases done = inr refl
select_send-cases (either true) = inl refl
select_send-cases (either false) = inr refl
