-- ===== src/Session/Leaks.antt =====
-- The resources of Ffmpeg/Ledger, and the calls that were made, over the branches of
-- `handle_read_body` and over the events.
use audio_server.Common.{ℕ, ◌≡◌, subst, some}
use audio_server.Session.Events.{Step, head_read, body_read, written, arrived}
use audio_server.Ffmpeg.{Library}
use audio_server.Ffmpeg.Order.{Extends, same}
use audio_server.Ffmpeg.Ledger.{Resource, held}
use audio_server.Session.{Session, Shared, Media, Outcome, done, undefined, out_of_fuel}
use audio_server.Session.Handled.Dispatch.{handle_read_body-Handled}
use audio_server.Session.Handled.{Handled, bad_read, no_fuel, stops, goes_on, answers}

abbrev Balanced : Resource → ℕ → Outcome (Session × Shared) → Type 0
Balanced resource n (done (s, shared)) = held resource shared.history ≡ some n
Balanced resource n undefined = Unit {0}
Balanced resource n out_of_fuel = Unit {0}

Handled-Balanced :
    (resource : Resource) (n : ℕ) (s : Session) (shared : Shared)
    (result : Outcome (Session × Shared))
    → held resource shared.history ≡ some n
    → Handled s shared result
    → Balanced resource n result
Handled-Balanced resource n s shared _ before bad_read = tt
Handled-Balanced resource n s shared _ before no_fuel = tt
Handled-Balanced resource n s shared _ before (stops info channel_id socket_open) = before
Handled-Balanced resource n s shared _ before (goes_on info) = before
Handled-Balanced resource n s shared _ before
      (answers info channel_id new build message_type ps answer balanced extends) =
    balanced resource n before

module _ (answer : Library) (media : Media) (packet_fuel frame_fuel : ℕ) where
  pub Step-held :
      (resource : Resource) (n : ℕ) {t u : Session × Shared}
      → Step answer media packet_fuel frame_fuel t u
      → held resource t.1.history ≡ some n
      → held resource u.1.history ≡ some n
  Step-held resource n (head_read s shared rest bytes error pending bytes-IsByte short) before =
      before
  Step-held resource n
        (body_read s shared rest m bytes error block_id u pending bytes-IsByte short result)
        before =
      Handled-Balanced resource n (arrived 5 bytes rest s) shared (done u) before (
        subst (Handled (arrived 5 bytes rest s) shared) result (
          handle_read_body-Handled answer media packet_fuel frame_fuel block_id
            (arrived 5 bytes rest s) shared error))
  Step-held resource n (written s shared rest m error pending) before = before

  Handled-Extends :
      (s : Session) (shared : Shared) (t : Session × Shared)
      → Handled s shared (done t)
      → Extends shared.history t.1.history
  Handled-Extends s shared _ (stops info channel_id socket_open) = same
  Handled-Extends s shared _ (goes_on info) = same
  Handled-Extends s shared _
        (answers info channel_id new build message_type ps answer balanced extends) =
      extends

  pub Step-Extends :
      {t u : Session × Shared}
      → Step answer media packet_fuel frame_fuel t u
      → Extends t.1.history u.1.history
  Step-Extends (head_read s shared rest bytes error pending bytes-IsByte short) = same
  Step-Extends
        (body_read s shared rest m bytes error block_id u pending bytes-IsByte short result) =
      Handled-Extends (arrived 5 bytes rest s) shared u (
        subst (Handled (arrived 5 bytes rest s) shared) result (
          handle_read_body-Handled answer media packet_fuel frame_fuel block_id
            (arrived 5 bytes rest s) shared error))
  Step-Extends (written s shared rest m error pending) = same
