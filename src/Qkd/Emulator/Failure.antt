-- ===== src/Qkd/Emulator/Failure.antt =====
-- Forced failures of the emulator.
use ree0x_q.Base.{ℕ, ◌≡◌, refl, String, some, List, [], ◌∷◌, map, All}
use ree0x_q.Qkd.Wire.{KeyContainer, StatusResponse, EncKeysQuery, DecKeysRequest}
use ree0x_q.Qkd.Emulator.{
  EmulatorState, Entropy, handle_status, handle_enc_keys, handle_dec_keys, ControlOp, set_qber,
  set_key_rate, force_failure, clear_failure, handle_control, Answer, served, failed_with,
  kme_unavailable,
}

-- A request with its arguments.
pub data Request : Type 0 where
  status : String → Request
  enc_keys : Entropy → EncKeysQuery → Request
  dec_keys : DecKeysRequest → Request
  control : ControlOp → Request

pub data Body : Type 0 where
  status_body : StatusResponse → Body
  container_body : KeyContainer → Body
  no_content : Body

abbrev pub embed : {A : Type 0} → (A → Body) → Answer A → Answer Body
embed f (served a) = served (f a)
embed f (failed_with code error) = failed_with code error

-- The router: which handler a request reaches.
unfoldable pub handle : EmulatorState → Request → EmulatorState × Answer Body
handle s (status slave_sae_id) = (s, embed status_body (handle_status s slave_sae_id))
handle s (enc_keys e query) =
    let done = handle_enc_keys e s query in (done.0, embed container_body done.1)
handle s (dec_keys req) = (s, embed container_body (handle_dec_keys s req))
handle s (control op) = (handle_control s op, served no_content)

unfoldable pub serve : EmulatorState → List Request → EmulatorState × List (Answer Body)
serve s [] = (s, [])
serve s (r ∷ rs) = let done = handle s r in let rest = serve done.0 rs in (rest.0, done.1 ∷ rest.1)

-- What each request is answered during a failure.
abbrev pub refusal : String → Request → Answer Body
refusal reason (status slave_sae_id) = failed_with 503 (kme_unavailable reason)
refusal reason (enc_keys e query) = failed_with 503 (kme_unavailable reason)
refusal reason (dec_keys req) = failed_with 503 (kme_unavailable reason)
refusal reason (control op) = served no_content

-- A request that neither forces nor clears a failure.
abbrev pub KeepsFailure : Request → Type 0
KeepsFailure (control (force_failure reason)) = ⊥
KeepsFailure (control clear_failure) = ⊥
KeepsFailure r = Unit

-- The failure stands, and the pool is as it was.
abbrev pub IsOutage : String → List (String × List ℕ) → EmulatorState → Type 0
IsOutage reason keys s = (s.forced_failure ≡ some reason) × (s.keys ≡ keys)

handle-IsOutage :
    (reason : String) (keys : List (String × List ℕ)) (s : EmulatorState) (r : Request)
    → IsOutage reason keys s
    → KeepsFailure r
    → IsOutage reason keys (handle s r).0 × ((handle s r).1 ≡ refusal reason r)
unfolding handle handle_status handle_enc_keys handle_dec_keys handle_control
handle-IsOutage reason keys s (status sae) h k = (h, rw h.0 refl)
handle-IsOutage reason keys s (enc_keys e query) h k = rw h.0 ((refl, h.1), refl)
handle-IsOutage reason keys s (dec_keys req) h k = (h, rw h.0 refl)
handle-IsOutage reason keys s (control (set_qber q)) h k = (h, refl)
handle-IsOutage reason keys s (control (set_key_rate rate)) h k = (h, refl)
handle-IsOutage reason keys s (control (force_failure other)) h k = absurd k
handle-IsOutage reason keys s (control clear_failure) h k = absurd k

serve-IsOutage :
    (reason : String) (keys : List (String × List ℕ)) (s : EmulatorState) (rs : List Request)
    → IsOutage reason keys s
    → All KeepsFailure rs
    → IsOutage reason keys (serve s rs).0 × ((serve s rs).1 ≡ map (refusal reason) rs)
unfolding serve
serve-IsOutage reason keys s [] h k = (h, refl)
serve-IsOutage reason keys s (r ∷ rs) h k =
    let one = handle-IsOutage reason keys s r h k.0 in
    let rest = serve-IsOutage reason keys (handle s r).0 rs one.0 k.1 in
    (rest.0, rw (one.1, rest.1) refl)

-- While a failure is forced, each request but a control is answered 503 with its reason, and once
-- it is cleared, dec_keys answers as it would have without the failure.
pub serve-forced_failure :
    (reason : String) (s : EmulatorState) (rs : List Request) (req : DecKeysRequest)
    → s.forced_failure ≡ some reason
    → All KeepsFailure rs
    → ((serve s rs).1 ≡ map (refusal reason) rs)
      × (handle_dec_keys (handle_control (serve s rs).0 clear_failure) req
          ≡ handle_dec_keys (handle_control s clear_failure) req)
unfolding handle_dec_keys handle_control
serve-forced_failure reason s rs req forced k =
    let outage = serve-IsOutage reason s.keys s rs (forced, refl) k in
    (outage.1, rw outage.0.1 refl)
