-- ===== src/Queue/Items.antt =====
-- Every queued item decodes: class ExposureQueueSubsystem of
-- src/chamber_ctl/subsystems/experiment_sequencer.py.
use chamber_ctl.Queue.{
  Codec, Fields, decode_settings, normalize_item, normalize_items, Item, bytes_item, decode_queue,
  bytes_payload, other_item, item_list, absent, other_payload, Payload,
}
use chamber_ctl.Prelude.{Text, List, [], ◌∷◌, ok, ◌≡◌, All, map, >>=-ok, subst, refl, ◌>>=◌}

module _ (codec : Codec) where
  abbrev pub IsItem : Text → Type 0
  IsItem t = (fields : Fields) × (decode_settings codec t ≡ ok fields)

  pub normalize_item-IsItem :
      (item : Item) (value : Text) → normalize_item codec item ≡ ok value → IsItem value
  unfolding normalize_item
  normalize_item-IsItem (bytes_item t) value h =
      let (fields, decoded, same) = >>=-ok (decode_settings codec t) (λ f. ok t) h in
      let eq : t ≡ value = cc same in
      subst (λ x. (f : Fields) × (decode_settings codec x ≡ ok f)) eq (fields, decoded)
  normalize_item-IsItem other_item value h = cc

  pub normalize_items-IsItem :
      (items : List Item) (values : List Text)
      → normalize_items codec items ≡ ok values
      → All IsItem values
  unfolding normalize_items
  normalize_items-IsItem [] values h = let eq : [] ≡ values = cc h in subst (All IsItem) eq tt
  normalize_items-IsItem (item ∷ items) values h =
      let (value, one, later) =
        >>=-ok (normalize_item codec item) (λ v. do out ← normalize_items codec items; ok (v ∷ out))
          h in
      let (out, rest, done) =
        >>=-ok (normalize_items codec items) (λ out. ok (value ∷ out)) later in
      let eq : value ∷ out ≡ values = cc done in
      subst (All IsItem) eq
        (normalize_item-IsItem item value one, normalize_items-IsItem items out rest)

  pub decode_queue-IsItem :
      (payload : Payload) (values : List Text)
      → decode_queue codec payload ≡ ok values
      → All IsItem values
  unfolding decode_queue
  decode_queue-IsItem absent values h = let eq : [] ≡ values = cc h in subst (All IsItem) eq tt
  decode_queue-IsItem (item_list items) values h = normalize_items-IsItem items values h
  decode_queue-IsItem other_payload values h = cc h
  decode_queue-IsItem (bytes_payload payload) values h =
      let (items, cut, normal) =
        >>=-ok (codec.segments payload) (λ items. normalize_items codec (map bytes_item items)) h in
      normalize_items-IsItem (map bytes_item items) values normal

  pub normalize_items-map :
      (values : List Text)
      → All IsItem values
      → normalize_items codec (map bytes_item values) ≡ ok values
  unfolding normalize_items normalize_item
  normalize_items-map [] h = refl
  normalize_items-map (value ∷ values) h = rw (h.0.1, normalize_items-map values h.1) refl

  pub decode-encode :
      ((l : List Text) → codec.segments (codec.encode_segments l) ≡ ok l)
      → (values : List Text) → All IsItem values
      → decode_queue codec (bytes_payload (codec.encode_segments values)) ≡ ok values
  unfolding decode_queue
  decode-encode back values h = rw (back values) (normalize_items-map values h)
