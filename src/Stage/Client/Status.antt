-- ===== src/Stage/Client/Status.antt =====
-- What the client reads is what the stage reports: `format_status` of
-- sample-stage-ctl/src/sample_stage_ctl/protocol.py against `__parse` of class StepperClient,
-- src/chamber_ctl/subsystems/sample_motion.py.
use chamber_ctl.Stage.Driver.{StepperController}
use chamber_ctl.Stage.Stepper.{Stepper}
use chamber_ctl.Stage.Wire.Commands.{IsWord, join-All, word-IsSolid}
use chamber_ctl.Stage.Client.{parse_block, StepperClient, comma, parse_blocks, parse, semicolon}
use chamber_ctl.Stage.Wire.{stepper_fields, show_bool, format_status, status_fields}
use chamber_ctl.Prelude.{
  ok, none, some, [], ◌∷◌, false, refl, ℕ, Bool, Text, show_int, List, ℤ, All, join, arith, ◌≡◌,
  show_int-IsPlain, codes, get_elem?, read-show_int, ap, ◌∙◌, ◌==◌, map, ◌++◌, All-map, subst,
  Lacks, IsSolid, split, sym, is_space, strip, All-append, strip-solid, split-closed,
}
use chamber_ctl.Stage.Client.Seen.{seen_steppers, Shows, seen-first, seen-kept}
use chamber_ctl.Stage.Client.Blocks.{
  parse_block-words, parse_blocks-ok, parse_blocks-steppers, show_bool-IsWord,
  stepper_fields-IsWord, is_true-show, parse_blocks-end,
}

status-IsWord : (c : StepperController) (q : ℤ) → All (All IsWord) (status_fields c (show_int q))
status-IsWord c q = (
  (ground arith, (show_int-IsPlain q, tt)),
  ((ground arith, (show_bool-IsWord c.enabled, tt)), stepper_fields-IsWord 0 c.steppers),
)

-- The blocks of a status are plain but for their commas.
block-Lacks : (words : List Text) → All IsWord words → Lacks semicolon (join comma words)
block-Lacks words h =
    join-All (λ c. (c == semicolon) ≡ false) comma words (ground arith)
      (All-map words (λ t p. All-map t (λ c q. q.2) p) h)

block-IsSolid : (words : List Text) → All IsWord words → IsSolid (join comma words)
block-IsSolid words h =
    join-All (λ c. is_space c ≡ false) comma words (ground arith)
      (All-map words (λ t p. word-IsSolid t p) h)

map-All :
    (P : Text → Type 0) (l : List (List Text))
    → All (λ words. P (join comma words)) l
    → All P (map (join comma) l)
map-All P [] h = tt
map-All P (words ∷ l) h = (h.0, map-All P l h.1)

-- The blocks that the client finds in a status.
status-split :
    (c : StepperController) (q : ℤ)
    → split semicolon (strip (format_status c (show_int q)))
      ≡ map (join comma) (status_fields c (show_int q)) ++ [] ∷ []
unfolding format_status
status-split c q =
    let fields = status_fields c (show_int q) in
    let blocks = map (join comma) fields in
    let words = status-IsWord c q in
    let solid : IsSolid (join semicolon blocks ++ semicolon ∷ []) =
      All-append (λ x. is_space x ≡ false) (join semicolon blocks) (semicolon ∷ [])
        (join-All (λ x. is_space x ≡ false) semicolon blocks (ground arith)
          (map-All IsSolid fields (All-map fields block-IsSolid words)))
        (ground arith) in
    ap (split semicolon) (strip-solid (join semicolon blocks ++ semicolon ∷ []) solid)
    ∙ split-closed semicolon _ _
        (map-All (Lacks semicolon) fields (All-map fields block-Lacks words))

-- The client after a whole status.
abbrev pub seen_status : StepperController → ℤ → StepperClient → StepperClient
seen_status c q k = seen_steppers 0 c.steppers (record k { last_ack_seq = q; enabled = c.enabled })

parse-sequence :
    (q : ℤ) (k : StepperClient)
    → parse_block (join comma (codes "S" ∷ show_int q ∷ [])) k ≡ ok (record k { last_ack_seq = q })
parse-sequence q k =
    parse_block-words (codes "S") (show_int q ∷ []) k refl (ground arith, (show_int-IsPlain q, tt))
    ∙ cc (read-show_int q)

parse-enabled :
    (b : Bool) (k : StepperClient)
    → parse_block (join comma (codes "E" ∷ show_bool b ∷ [])) k ≡ ok (record k { enabled = b })
parse-enabled b k =
    parse_block-words (codes "E") (show_bool b ∷ []) k refl (ground arith, (show_bool-IsWord b, tt))
    ∙ cc (is_true-show b)

parse-status :
    (c : StepperController) (q : ℤ) (k : StepperClient)
    → parse (format_status c (show_int q)) k ≡ (seen_status c q k, none)
unfolding parse
parse-status c q k =
    let axes = map (join comma) (stepper_fields 0 c.steppers) ++ [] ∷ [] in
    let powered = join comma (codes "E" ∷ show_bool c.enabled ∷ []) in
    let k1 = record k { last_ack_seq = q } in
    let k2 = record k1 { enabled = c.enabled } in
    ap (λ l. parse_blocks l k) (status-split c q)
    ∙ parse_blocks-ok _ (powered ∷ axes) k (parse-sequence q k)
    ∙ parse_blocks-ok powered axes k1 (parse-enabled c.enabled k1)
    ∙ parse_blocks-steppers 0 c.steppers ([] ∷ []) k2
    ∙ parse_blocks-end (seen_steppers 0 c.steppers k2)

-- A status that the stage sends is read whole: the client then has the acknowledged number, whether
-- the motors are powered, and of each axis the position, whether it moves, and where its switch was.
pub parse-format_status :
    (c : StepperController) (q : ℤ) (k : StepperClient)
    → let (d, failure) = parse (format_status c (show_int q)) k in
      (failure ≡ none)
      × (d.last_ack_seq ≡ q)
      × (d.enabled ≡ c.enabled)
      × ((j : ℕ) (s : Stepper) → get_elem? c.steppers j ≡ some s → Shows d j s)
parse-format_status c q k =
    let read = parse-status c q k in
    let client = ap (λ x. x.0) read in
    let (acknowledged, powered) =
      seen-kept 0 c.steppers (record k { last_ack_seq = q; enabled = c.enabled }) in
    (
      ap (λ x. x.1) read,
      ap (λ d. d.last_ack_seq) client ∙ acknowledged,
      ap (λ d. d.enabled) client ∙ powered,
      λ j s found.
          subst (λ d. Shows d j s) (sym client)
            (seen-first j c.steppers (record k { last_ack_seq = q; enabled = c.enabled }) s found),
    )
