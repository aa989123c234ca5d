-- ===== src/Stage/Client/Frame.antt =====
-- What `__parse` of class StepperClient, src/chamber_ctl/subsystems/sample_motion.py, leaves alone.
use chamber_ctl.Stage.Client.{
  StepperClient, parse_block, parse_tokens, WireError, parse_axis, comma, int_token, token, home_of,
  parse_blocks, parse, semicolon,
}
use chamber_ctl.Prelude.{
  ok, err, [], ◌∷◌, false, pos, ◌≡◌, arith, Text, Bool-cases, List, inl, inr, refl, Result, ℤ,
  split, text_eq, codes, >>=-ok, ap, sym, Result-cases, ◌∙◌, strip, ◌>>=◌,
}

-- The part of the client that a status does not touch.
abbrev pub but_status : StepperClient → StepperClient
but_status c = record c {
  last_ack_seq = pos 0;
  enabled = false;
  positions = [];
  moving = [];
  home_positions = [];
}

bind-but_status :
    {A : Type 0} (m : Result WireError A) (f : A → StepperClient) (c : StepperClient)
    {d : StepperClient}
    → ((a : A) → but_status (f a) ≡ but_status c)
    → (m >>= λ a. ok (f a)) ≡ ok d
    → but_status d ≡ but_status c
bind-but_status (err x) f c h e = cc
bind-but_status (ok a) f c {d} h e =
    let same : f a ≡ d = ground arith in ap but_status (sym same) ∙ h a

parse_axis-but_status :
    (kind : Text) (tokens : List Text) (stepper : ℤ) (c : StepperClient) {d : StepperClient}
    → parse_axis kind tokens stepper c ≡ ok d
    → but_status d ≡ but_status c
parse_axis-but_status kind tokens stepper c {d} e = elim (Bool-cases (text_eq kind (codes "P"))) [
  | inl p ↦ bind-but_status (int_token tokens 2) _ c (λ a. refl) (rw p at e)
  | inr p ↦ elim (Bool-cases (text_eq kind (codes "M"))) [
    | inl m ↦ bind-but_status (token tokens 2) _ c (λ a. refl) (rw (p, m) at e)
    | inr m ↦ elim (Bool-cases (text_eq kind (codes "H"))) [
      | inl h ↦
          let e' = rw (p, m, h) at e in
          let (t, found, e1) = >>=-ok (token tokens 2) _ e' in
          bind-but_status (home_of t) _ c (λ a. refl) e1
      | inr h ↦
          let e' = rw (p, m, h) at e in let same : c ≡ d = ground arith in ap but_status (sym same)
    ]
  ]
]

parse_tokens-but_status :
    (kind : Text) (tokens : List Text) (c : StepperClient) {d : StepperClient}
    → parse_tokens kind tokens c ≡ ok d
    → but_status d ≡ but_status c
parse_tokens-but_status kind tokens c e = elim (Bool-cases (text_eq kind (codes "S"))) [
  | inl s ↦ bind-but_status (int_token tokens 1) _ c (λ a. refl) (rw s at e)
  | inr s ↦ elim (Bool-cases (text_eq kind (codes "E"))) [
    | inl t ↦ bind-but_status (token tokens 1) _ c (λ a. refl) (rw (s, t) at e)
    | inr t ↦
        let e' = rw (s, t) at e in
        let (stepper, found, e1) = >>=-ok (int_token tokens 1) _ e' in
        parse_axis-but_status kind tokens stepper c e1
  ]
]

parse_block-but_status :
    (block : Text) (c : StepperClient) {d : StepperClient}
    → parse_block block c ≡ ok d
    → but_status d ≡ but_status c
unfolding parse_block
parse_block-but_status [] c e = ground arith
parse_block-but_status (letter ∷ block) c e =
    let tokens = split comma (letter ∷ block) in
    let (kind, k, e1) = >>=-ok (token tokens 0) _ e in parse_tokens-but_status kind tokens c e1

parse_blocks-but_status :
    (blocks : List Text) (c : StepperClient) → but_status (parse_blocks blocks c).0 ≡ but_status c
unfolding parse_blocks
parse_blocks-but_status [] c = refl
parse_blocks-but_status (block ∷ blocks) c = elim (Result-cases (parse_block block c)) [
  | inl (x, failed) ↦ rw (failed, parse_blocks) refl
  | inr (d, done) ↦
      rw (done, parse_blocks)
        (parse_blocks-but_status blocks d ∙ parse_block-but_status block c done)
]

-- A status, whole or broken off, leaves the part that it does not tell of.
pub parse-but_status :
    (data' : Text) (c : StepperClient) → but_status (parse data' c).0 ≡ but_status c
unfolding parse
parse-but_status data' c = parse_blocks-but_status (split semicolon (strip data')) c
