-- ===== src/Attribution/Challenges.antt =====
-- engine/challenger.py: proofs about the score, the order and the bound of `challenge_razorpay`.
use mathlib.Core.Path.{subst}
use untangle.Base.{
  ℕ, zero, suc, ◌≤◌, ltb, ◌≡◌, refl, sym, ◌∙◌, inl, inr, ◌⊎◌, true, false, Bool-cases, Option, none,
  some, List, [], ◌∷◌, ◌++◌, length, take, if_false, In, if◌then◌else◌, arith,
}
use untangle.Base.Floats.{Floats, IsOrder, max_float}
use untangle.Models.{Rail, EvidenceItem, CompetingExplanation}
use untangle.Attribution.Challenger.{
  ChallengerResult, ablations_for, observed_rails, ablate_all, insert_challenge, sort_challenges,
  strongest_of, strongest_in, greatest_score, competing_score_of, key_le, strength_le,
  challenge_razorpay,
}

length-take_le : {A : Type 0} (n : ℕ) (xs : List A) → length (take n xs) ≤ n
length-take_le zero xs = omega arith
length-take_le (suc n) [] = omega arith
length-take_le (suc n) (x ∷ xs) = let h = length-take_le n xs in omega (arith, h)

length-take : {A : Type 0} (n : ℕ) (xs : List A) → n ≤ length xs → length (take n xs) ≡ n
length-take zero xs h = refl
length-take (suc n) [] h = omega (arith, h)
length-take (suc n) (x ∷ xs) h = let k = length-take n xs (omega (arith, h)) in omega (arith, k)

abbrev cut : {A : Type 0} → ℕ → List A → List A
cut limit found = if ltb limit (length found) then take limit found else found

length-cut : {A : Type 0} (limit : ℕ) (found : List A) → length (cut limit found) ≤ limit
length-cut limit found = elim (Bool-cases (ltb limit (length found))) [
  | inl t ↦ rw t (length-take_le limit found)
  | inr f ↦ rw f (ground arith)
]

module _ {F : Type 0} where
  insert_challenge-keeps :
      (c x : CompetingExplanation F) (ds : List (CompetingExplanation F))
      → In x (c ∷ ds)
      → In x (insert_challenge c ds)
  unfolding insert_challenge
  insert_challenge-keeps c x [] m = m
  insert_challenge-keeps c x (d ∷ ds) m = elim (Bool-cases (key_le c d)) [
    | inl t ↦ rw t m
    | inr f ↦ rw f (elim m [
      | inl e ↦ inr (insert_challenge-keeps c x ds (inl e))
      | inr (inl e) ↦ inl e
      | inr (inr k) ↦ inr (insert_challenge-keeps c x ds (inr k))
    ])
  ]

  sort_challenges-keeps :
      (x : CompetingExplanation F) (cs : List (CompetingExplanation F))
      → In x cs
      → In x (sort_challenges cs)
  unfolding sort_challenges
  sort_challenges-keeps x [] m = elim m [ ]
  sort_challenges-keeps x (c ∷ cs) (inl e) = insert_challenge-keeps c x (sort_challenges cs) (inl e)
  sort_challenges-keeps x (c ∷ cs) (inr k) =
      insert_challenge-keeps c x (sort_challenges cs) (inr (sort_challenges-keeps x cs k))

module _ {F : Type 0} ⦃fl : Floats F⦄ where
  -- What the result says of the challenges that it carries: either there are none, no strongest and a
  -- score of zero, or the strongest is one of them, no other outscores it, and the competing score is the
  -- score of one of them and no less than any.
  abbrev pub IsVerdict :
      List (CompetingExplanation F) → Option (CompetingExplanation F) → F → Type 0
  IsVerdict challenges strongest score =
      ((challenges ≡ []) × (strongest ≡ none) × (score ≡ fl.decimal 0))
      ⊎ ((best : CompetingExplanation F) × (top : CompetingExplanation F) × (strongest ≡ some best)
          × In best challenges
          × In top challenges
          × (score ≡ top.score)
          × ((c : CompetingExplanation F)
              → In c challenges
              → (fl.leq c.score best.score ≡ true) × (fl.leq c.score score ≡ true)))

  -- Either the result says that it truncated, and then it carries exactly `limit` challenges out of
  -- more, or it carries each of those found.
  abbrev pub IsCut : ℕ → List (CompetingExplanation F) → ChallengerResult F → Type 0
  IsCut limit all res =
      ((res.truncated ≡ true) × (res.challenges_evaluated ≡ limit))
      ⊎ ((res.truncated ≡ false)
          × (res.challenges_evaluated ≤ limit)
          × ((c : CompetingExplanation F) → In c all → In c res.challenges))

module _ {F : Type 0} ⦃fl : Floats F⦄ (ordered : IsOrder fl.leq) where
  leq_refl : (x : F) → fl.leq x x ≡ true
  leq_refl x = elim (Bool-cases (fl.leq x x)) [ inl t ↦ t | inr f ↦ ordered.total x x f ]

  max_float-left : (a b : F) → fl.leq a (max_float a b) ≡ true
  max_float-left a b = elim (Bool-cases (fl.leq b a)) [
    | inl t ↦ rw t (leq_refl a)
    | inr f ↦ rw f (ordered.total b a f)
  ]

  max_float-right : (a b : F) → fl.leq b (max_float a b) ≡ true
  max_float-right a b = elim (Bool-cases (fl.leq b a)) [
    | inl t ↦ rw t t
    | inr f ↦ rw f (leq_refl b)
  ]

  -- `max` is at least the start and every score.
  greatest_score-start :
      (m : F) (cs : List (CompetingExplanation F)) → fl.leq m (greatest_score m cs) ≡ true
  unfolding greatest_score
  greatest_score-start m [] = leq_refl m
  greatest_score-start m (c ∷ cs) =
      ordered.trans m (max_float m c.score) _ (max_float-left m c.score)
        (greatest_score-start (max_float m c.score) cs)

  greatest_score-In :
      (m : F) (cs : List (CompetingExplanation F)) (c : CompetingExplanation F)
      → In c cs
      → fl.leq c.score (greatest_score m cs) ≡ true
  unfolding greatest_score
  greatest_score-In m [] c k = elim k [ ]
  greatest_score-In m (d ∷ cs) c (inl e) = rw e (
      ordered.trans d.score (max_float m d.score) _ (max_float-right m d.score)
        (greatest_score-start (max_float m d.score) cs))
  greatest_score-In m (d ∷ cs) c (inr k) = greatest_score-In (max_float m d.score) cs c k

  competing_score-In :
      (cs : List (CompetingExplanation F)) (c : CompetingExplanation F)
      → In c cs
      → fl.leq c.score (competing_score_of cs) ≡ true
  competing_score-In [] c k = elim k [ ]
  competing_score-In (d ∷ cs) c (inl e) = rw e (greatest_score-start d.score cs)
  competing_score-In (d ∷ cs) c (inr k) = greatest_score-In d.score cs c k

  abbrev stronger : CompetingExplanation F → CompetingExplanation F → CompetingExplanation F
  stronger best d = if strength_le d best then best else d

  stronger-top :
      (best d : CompetingExplanation F)
      → ((stronger best d ≡ best) ⊎ (stronger best d ≡ d))
        × (fl.leq best.score (stronger best d).score ≡ true)
        × (fl.leq d.score (stronger best d).score ≡ true)
  stronger-top best d = elim (Bool-cases (strength_le d best)) [
    | inl t ↦ rw t (inl refl, leq_refl best.score, ground arith)
    | inr f ↦ rw f (inr refl, ground (arith, ordered.total d.score best.score), leq_refl d.score)
  ]

  -- The strongest is among the challenges, and scores at least as much as each.
  strongest_of-top :
      (best : CompetingExplanation F) (cs : List (CompetingExplanation F))
      → In (strongest_of best cs) (best ∷ cs)
        × ((c : CompetingExplanation F)
            → In c (best ∷ cs)
            → fl.leq c.score (strongest_of best cs).score ≡ true)
  unfolding strongest_of
  strongest_of-top best [] =
      (inl refl, λ c m. elim m [ inl e ↦ rw e (leq_refl best.score) | inr k ↦ elim k [ ] ])
  strongest_of-top best (d ∷ cs) =
      let (m, h) = strongest_of-top (stronger best d) cs in
      let (same, up, over) = stronger-top best d in
      let top = h (stronger best d) (inl refl) in
      (
        elim m [
          | inl e ↦ elim same [ inl b ↦ inl (e ∙ b) | inr b ↦ inr (inl (e ∙ b)) ]
          | inr k ↦ inr (inr k)
        ],
        λ c n. elim n [
          | inl e ↦ rw e (ordered.trans best.score (stronger best d).score _ up top)
          | inr (inl e) ↦ rw e (ordered.trans d.score (stronger best d).score _ over top)
          | inr (inr k) ↦ h c (inr k)
        ],
      )

  -- The competing score of some challenges is the score of one of them.
  greatest_score-attained :
      (m : F) (cs : List (CompetingExplanation F))
      → (greatest_score m cs ≡ m)
        ⊎ ((c : CompetingExplanation F) × In c cs × (greatest_score m cs ≡ c.score))
  unfolding greatest_score
  greatest_score-attained m [] = inl refl
  greatest_score-attained m (c ∷ cs) = elim (greatest_score-attained (max_float m c.score) cs) [
    | inr (d, k, e) ↦ inr (d, inr k, e)
    | inl e ↦ elim (Bool-cases (fl.leq c.score m)) [
      | inl t ↦ inl (e ∙ rw t refl)
      | inr f ↦ inr (c, inl refl, e ∙ rw f refl)
    ]
  ]

  challenges-IsVerdict :
      (cs : List (CompetingExplanation F)) → IsVerdict cs (strongest_in cs) (competing_score_of cs)
  challenges-IsVerdict [] = inl (refl, refl, refl)
  challenges-IsVerdict (c ∷ cs) =
      let (m, over) = strongest_of-top c cs in
      let (top, k, e) = attained in
      inr
        (strongest_of c cs, top, refl, m, k, e, λ d n. (over d n, competing_score-In (c ∷ cs) d n))
    where
      attained :
          (top : CompetingExplanation F) × In top (c ∷ cs)
          × (competing_score_of (c ∷ cs) ≡ top.score)
      attained = elim (greatest_score-attained c.score cs) [
        | inl e ↦ (c, inl refl, e)
        | inr (d, k, e) ↦ (d, inr k, e)
      ]

  -- The challenger says that it truncated and evaluates exactly `limit` challenges, or it evaluates at
  -- most that many and each observed rail and each ablation is among them; the count is the number of
  -- the challenges that it carries. Either there are no challenges, no strongest one and a competing score
  -- of 0, or the strongest is a challenge that no other outscores, and the competing score is the score of
  -- one of the challenges and at least that of each. The floats are no NaN.
  pub challenge_razorpay-bounds :
      (combine : List (EvidenceItem F) → F) (rzp_evidence : List (EvidenceItem F))
      (non_rzp : List (Rail × List (EvidenceItem F))) (rzp_score : F) (limit : ℕ)
      → let res = challenge_razorpay combine rzp_evidence non_rzp rzp_score limit in
        (res.challenges_evaluated ≡ length res.challenges)
        × IsCut limit
            (observed_rails combine non_rzp
              ++ ablate_all combine rzp_evidence (ablations_for rzp_evidence))
            res
        × IsVerdict res.challenges res.strongest res.competing_score
  unfolding challenge_razorpay
  challenge_razorpay-bounds combine rzp_evidence non_rzp rzp_score limit =
      let all =
        observed_rails combine non_rzp
        ++ ablate_all combine rzp_evidence (ablations_for rzp_evidence) in
      let found = sort_challenges all in
      (
        refl,
        elim (Bool-cases (ltb limit (length found))) [
          | inl t ↦ inl (t, rw t (length-take limit found (ground arith)))
          | inr f ↦ inr (
            f,
            length-cut limit found,
            λ c m.
                subst (In c) (sym (if_false (ltb limit (length found)) (take limit found) found f))
                  (sort_challenges-keeps c all m),
          )
        ],
        challenges-IsVerdict (cut limit found),
      )
