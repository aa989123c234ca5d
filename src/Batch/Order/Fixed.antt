-- ===== src/Batch/Order/Fixed.antt =====
-- That the order in which the runs are loaded does not matter to `assess_batch` of
use chamber_ctl.Batch.Decision.{ControllerSnapshot}
use chamber_ctl.Batch.Plan.{BatchPlan}
use chamber_ctl.Batch.Assess.{assess_batch, Inputs}
use chamber_ctl.Batch.Order.{insert_attempt, ExposureAttempt, created_before, sort_from}
use chamber_ctl.Prelude.{
  true, false, ◌≡◌, arith, ◌==◌, ◌&&◌, ◌||◌, fin, Float, ℕ, Bool, is_finite, flt, feq, ltb, [], ◌∷◌,
  refl, inl, inr, List, All, Bool-cases, ◌∙◌, ap, sym,
}

-- src/chamber_ctl/subsystems/batcher.py.

abbrev key_before : Float → ℕ → Float → ℕ → Bool
key_before x u y v = flt x y || (feq x y && ltb u v)

key_before_trans :
    (x y z : Float) (u v w : ℕ)
    → is_finite x ≡ true
    → is_finite y ≡ true
    → is_finite z ≡ true
    → key_before x u y v ≡ true
    → key_before y v z w ≡ true
    → key_before x u z w ≡ true
key_before_trans (fin x) (fin y) (fin z) u v w tx ty tz a b = ground (arith, a, b)
key_before_trans x y z u v w tx ty tz a b = cc

key_before_asym :
    (x y : Float) (u v : ℕ)
    → is_finite x ≡ true
    → is_finite y ≡ true
    → key_before x u y v ≡ true
    → key_before y v x u ≡ false
key_before_asym (fin x) (fin y) u v tx ty a = ground (arith, a)
key_before_asym x y u v tx ty a = cc

key_before_total :
    (x y : Float) (u v : ℕ)
    → is_finite x ≡ true
    → is_finite y ≡ true
    → (u == v) ≡ false
    → key_before x u y v ≡ false
    → key_before y v x u ≡ true
key_before_total (fin x) (fin y) u v tx ty apart a = ground (arith, a, apart)
key_before_total x y u v tx ty apart a = cc

abbrev pub IsDated : ExposureAttempt → Type 0
IsDated a = is_finite a.created_at ≡ true

-- No two runs have the same identifier.
abbrev pub AllApart : List ExposureAttempt → Type 0
AllApart [] = Unit {0}
AllApart (a ∷ l) = All (λ b. (a.run_uuid == b.run_uuid) ≡ false) l × AllApart l

-- The same runs in another order.
pub data Rearranged : List ExposureAttempt → List ExposureAttempt → Type 0 where
  nil : Rearranged [] []
  cons :
      {a : ExposureAttempt} {l r : List ExposureAttempt}
      → Rearranged l r
      → Rearranged (a ∷ l) (a ∷ r)
  swap : {a b : ExposureAttempt} {l : List ExposureAttempt} → Rearranged (a ∷ b ∷ l) (b ∷ a ∷ l)
  trans : {l m r : List ExposureAttempt} → Rearranged l m → Rearranged m r → Rearranged l r

All-Rearranged :
    (P : ExposureAttempt → Type 0) {l r : List ExposureAttempt} → Rearranged l r → All P l → All P r
All-Rearranged P nil h = tt
All-Rearranged P (cons d) (first, rest) = (first, All-Rearranged P d rest)
All-Rearranged P swap (first, (second, rest)) = (second, (first, rest))
All-Rearranged P (trans d e) h = All-Rearranged P e (All-Rearranged P d h)

apart_sym : (u v : ℕ) → (u == v) ≡ false → (v == u) ≡ false
apart_sym u v h = ground (arith, h)

AllApart-Rearranged : {l r : List ExposureAttempt} → Rearranged l r → AllApart l → AllApart r
AllApart-Rearranged nil h = tt
AllApart-Rearranged (cons {a = a} d) (first, rest) =
    (All-Rearranged (λ b. (a.run_uuid == b.run_uuid) ≡ false) d first, AllApart-Rearranged d rest)
AllApart-Rearranged (swap {a = a} {b = b}) ((apart, first), (second, rest)) =
    ((apart_sym a.run_uuid b.run_uuid apart, second), (first, rest))
AllApart-Rearranged (trans d e) h = AllApart-Rearranged e (AllApart-Rearranged d h)

All-insert :
    (P : ExposureAttempt → Type 0) (a : ExposureAttempt) (l : List ExposureAttempt)
    → P a
    → All P l
    → All P (insert_attempt a l)
unfolding insert_attempt
All-insert P a [] p h = (p, tt)
All-insert P a (b ∷ l) p (first, rest) = elim (Bool-cases (created_before a b)) [
  | inl before ↦ rw before (p, (first, rest))
  | inr behind ↦ rw behind (first, All-insert P a l p rest)
]

in_front :
    (a x : ExposureAttempt) (l : List ExposureAttempt)
    → created_before a x ≡ true
    → insert_attempt a (x ∷ l) ≡ a ∷ x ∷ l
unfolding insert_attempt
in_front a x l h = rw h refl

at_back :
    (a x : ExposureAttempt) (l : List ExposureAttempt)
    → created_before a x ≡ false
    → insert_attempt a (x ∷ l) ≡ x ∷ insert_attempt a l
unfolding insert_attempt
at_back a x l h = rw h refl

-- The first of two runs goes in front of a third one.
both_in_front :
    (a b x : ExposureAttempt) (l : List ExposureAttempt)
    → created_before a b ≡ true
    → created_before b a ≡ false
    → created_before a x ≡ true
    → created_before b x ≡ true
    → insert_attempt a (insert_attempt b (x ∷ l)) ≡ insert_attempt b (insert_attempt a (x ∷ l))
both_in_front a b x l ab ba ax bx =
    ap (insert_attempt a) (in_front b x l bx)
    ∙ in_front a b (x ∷ l) ab
    ∙ sym (
        ap (insert_attempt b) (in_front a x l ax)
        ∙ at_back b a (x ∷ l) ba
        ∙ ap (λ r. a ∷ r) (in_front b x l bx))

one_in_front :
    (a b x : ExposureAttempt) (l : List ExposureAttempt)
    → created_before b a ≡ false
    → created_before a x ≡ true
    → created_before b x ≡ false
    → insert_attempt a (insert_attempt b (x ∷ l)) ≡ insert_attempt b (insert_attempt a (x ∷ l))
one_in_front a b x l ba ax bx =
    ap (insert_attempt a) (at_back b x l bx)
    ∙ in_front a x (insert_attempt b l) ax
    ∙ sym (
        ap (insert_attempt b) (in_front a x l ax)
        ∙ at_back b a (x ∷ l) ba
        ∙ ap (λ r. a ∷ r) (at_back b x l bx))

-- What is behind a run that is behind another is behind that one too.
stays_behind :
    (a b x : ExposureAttempt)
    → IsDated a
    → IsDated b
    → IsDated x
    → created_before a x ≡ true
    → created_before b x ≡ false
    → created_before b a ≡ false
stays_behind a b x ta tb tx ax bx = elim (Bool-cases (created_before b a)) [
  | inr behind ↦ behind
  | inl before ↦
      let through =
        key_before_trans b.created_at a.created_at x.created_at b.run_uuid a.run_uuid x.run_uuid tb
          ta tx before ax in
      cc (through, bx)
]

-- Two runs are inserted in either order.
insert_comm :
    (a b : ExposureAttempt) (l : List ExposureAttempt)
    → IsDated a
    → IsDated b
    → (a.run_uuid == b.run_uuid) ≡ false
    → All IsDated l
    → insert_attempt a (insert_attempt b l) ≡ insert_attempt b (insert_attempt a l)
unfolding insert_attempt
insert_comm a b [] ta tb apart h = elim (Bool-cases (created_before a b)) [
  | inl ab ↦
      let ba = key_before_asym a.created_at b.created_at a.run_uuid b.run_uuid ta tb ab in
      in_front a b [] ab ∙ sym (at_back b a [] ba)
  | inr nab ↦
      let ba = key_before_total a.created_at b.created_at a.run_uuid b.run_uuid ta tb apart nab in
      at_back a b [] nab ∙ sym (in_front b a [] ba)
]
insert_comm a b (x ∷ l) ta tb apart (tx, rest) = elim (Bool-cases (created_before a x)) [
  | inl ax ↦ elim (Bool-cases (created_before b x)) [
    | inl bx ↦ elim (Bool-cases (created_before a b)) [
      | inl ab ↦
          let ba = key_before_asym a.created_at b.created_at a.run_uuid b.run_uuid ta tb ab in
          both_in_front a b x l ab ba ax bx
      | inr nab ↦
          let ba =
            key_before_total a.created_at b.created_at a.run_uuid b.run_uuid ta tb apart nab in
          sym (both_in_front b a x l ba nab bx ax)
    ]
    | inr nbx ↦ one_in_front a b x l (stays_behind a b x ta tb tx ax nbx) ax nbx
  ]
  | inr nax ↦ elim (Bool-cases (created_before b x)) [
    | inl bx ↦ sym (one_in_front b a x l (stays_behind b a x tb ta tx bx nax) bx nax)
    | inr nbx ↦
        ap (insert_attempt a) (at_back b x l nbx)
        ∙ at_back a x (insert_attempt b l) nax
        ∙ ap (λ r. x ∷ r) (insert_comm a b l ta tb apart rest)
        ∙ sym (ap (insert_attempt b) (at_back a x l nax) ∙ at_back b x (insert_attempt a l) nbx)
  ]
]

sort_from-Rearranged :
    (done : List ExposureAttempt) {l r : List ExposureAttempt}
    → Rearranged l r
    → All IsDated done
    → All IsDated l
    → AllApart l
    → sort_from done l ≡ sort_from done r
unfolding sort_from
sort_from-Rearranged done nil dated h apart = refl
sort_from-Rearranged done (cons {a = a} d) dated (first, rest) (away, apart) =
    sort_from-Rearranged (insert_attempt a done) d (All-insert IsDated a done first dated) rest
      apart
sort_from-Rearranged done (swap {a = a} {b = b} {l = l}) dated (ta, (tb, rest)) ((away, x), y) =
    ap (λ d. sort_from d l)
      (insert_comm b a done tb ta (apart_sym a.run_uuid b.run_uuid away) dated)
sort_from-Rearranged done (trans d e) dated h apart =
    sort_from-Rearranged done d dated h apart
    ∙ sort_from-Rearranged done e dated (All-Rearranged IsDated d h) (AllApart-Rearranged d apart)

-- `assess_batch` gives the same answer for the same runs in any other order, if their creation
-- times are finite and no two runs have the same identifier.
pub assess_batch-Rearranged :
    (plan : BatchPlan) {l r : List ExposureAttempt} (controller : ControllerSnapshot) (i : Inputs)
    → Rearranged l r
    → All IsDated l
    → AllApart l
    → assess_batch plan l controller i ≡ assess_batch plan r controller i
unfolding assess_batch
assess_batch-Rearranged plan {l} {r} controller i d dated apart =
    rw (sort_from-Rearranged [] d tt dated apart) refl
