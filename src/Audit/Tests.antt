-- ===== src/Audit/Tests.antt =====
-- The audit ledger with a digest that keeps what it is made of, so that it has no collisions.
use untangle.Base.{
  ℕ, ◌≡◌, ◌≢◌, ◌↔◌, refl, String, Bool, true, false, ◌&&◌, ◌==◌, List, [], ◌∷◌, arith,
}
use untangle.Base.Keys.{Eq, ◌=?◌, string_eq, nat_eq}
use untangle.Audit.{Body, Entry, verify}
use untangle.Audit.Chain.{verify_tamper_evident}

data Trace : Type 0 where
  none_yet : Trace
  link : Trace → ℕ → String → ℕ → Trace → Trace

trace_beq : Trace → Trace → Bool
trace_beq none_yet none_yet = true
trace_beq none_yet (link p n s q r) = false
trace_beq (link p n s q r) none_yet = false
trace_beq (link p n s q r) (link p' n' s' q' r') =
    trace_beq p p' && ((n == n') && ((s =? s') && ((q == q') && trace_beq r r')))

trace_beq_sound : (s t : Trace) → trace_beq s t ≡ true → s ≡ t
unfolding trace_beq
trace_beq_sound none_yet none_yet h = refl
trace_beq_sound none_yet (link p n s q r) h = cc
trace_beq_sound (link p n s q r) none_yet h = cc
trace_beq_sound (link p n s q r) (link p' n' s' q' r') h =
    ground (arith, trace_beq_sound p p', trace_beq_sound r r', (string_eq.beq_iff s s').0)

trace_beq_refl : (t : Trace) → trace_beq t t ≡ true
unfolding trace_beq
trace_beq_refl none_yet = refl
trace_beq_refl (link p n s q r) =
    ground (arith, trace_beq_refl p, trace_beq_refl r, (string_eq.beq_iff s s).1 refl)

trace_beq_iff : (s t : Trace) → (trace_beq s t ≡ true) ↔ (s ≡ t)
trace_beq_iff s t = (trace_beq_sound s t, λ e. rw e (trace_beq_refl t))

instance abbrev trace_eq : Eq Trace
trace_eq = record { beq = trace_beq; beq_iff = trace_beq_iff }

abbrev trace : Trace → Body Trace ℕ → Trace
trace prev b = link prev b.seq b.event b.payload b.prev

trace_collision_free :
    (p q : Trace) (b c : Body Trace ℕ) → trace p b ≡ trace q c → (p ≡ q) × (b ≡ c)
trace_collision_free p q b c e = ground arith

trace_never_genesis : (p : Trace) (b : Body Trace ℕ) → trace p b ≢ none_yet
trace_never_genesis p b e = cc

abbrev events : List (String × ℕ)
events = ("ingest", 1) ∷ ("reconcile", 2) ∷ []

abbrev first_entry : Entry Trace ℕ
first_entry = record {
  body = record { seq = 0; event = "ingest"; payload = 1; prev = none_yet };
  hash = link none_yet 0 "ingest" 1 none_yet;
}

verify_tamper_evident_example : first_entry ∷ [] ≡ first_entry ∷ []
unfolding verify trace_beq
verify_tamper_evident_example =
    verify_tamper_evident none_yet trace trace_collision_free trace_never_genesis (first_entry ∷ [])
      (first_entry ∷ []) refl refl refl
