-- ===== src/Social/Words.antt =====
-- Which messages are rejected when they come in.
use live_ops_backend.Prelude.{
  ℕ, String, ◌==◌, ◌≡◌, refl, Bool, true, false, not, List, [], ◌∷◌, ◌++◌, Option, arith,
  Bool-cases, Option-cases, some, inl, inr, sym, ap, ◌∙◌, subst, ok, World, In, here, there,
  is_prefix, is_prefix→++, ◌↔◌, ◌⊎◌,
}
use live_ops_backend.Prelude.Map.{Map, get}
use live_ops_backend.Prelude.Table.{Table}
use live_ops_backend.Guards.{codes}
use live_ops_backend.Social.{
  SocialMessage, SocialMessagePayload, Analysis, Event, rejected, pending, has_word, some_word,
  get_blacklist, first_blacklists, or_neutral, status_of, ingest_message,
}

-- the word stands somewhere in the text
abbrev pub Occurs : List ℕ → List ℕ → Type 0
Occurs word text = (before after : List ℕ) × (text ≡ before ++ (word ++ after))

is_prefix-++ : (word after : List ℕ) → is_prefix word (word ++ after) ≡ true
is_prefix-++ [] after = refl
is_prefix-++ (b ∷ word) after = ground (arith, is_prefix-++ word after)

has_word→Occurs : (text word : List ℕ) → has_word text word ≡ true → Occurs word text
unfolding has_word
has_word→Occurs [] word h = let (after, e) = is_prefix→++ word [] h in ([], after, e)
has_word→Occurs (c ∷ text) word h = elim (Bool-cases (is_prefix word (c ∷ text))) [
  | inl e ↦ let (after, same) = is_prefix→++ word (c ∷ text) e in ([], after, same)
  | inr e ↦
      let (before, after, same) = has_word→Occurs text word (rw (has_word, e) at h) in
      (c ∷ before, after, ap (λ cs. c ∷ cs) same)
]

here_too : (text word : List ℕ) → is_prefix word text ≡ true → has_word text word ≡ true
unfolding has_word
here_too [] word h = h
here_too (c ∷ text) word h = rw h refl

later_too :
    (c : ℕ) (text word : List ℕ) → has_word text word ≡ true → has_word (c ∷ text) word ≡ true
unfolding has_word
later_too c text word h = ground (arith, h)

Occurs→has_word : (before after word : List ℕ) → has_word (before ++ (word ++ after)) word ≡ true
Occurs→has_word [] after word = here_too (word ++ after) word (is_prefix-++ word after)
Occurs→has_word (c ∷ before) after word = later_too c _ word (Occurs→has_word before after word)

-- a word of the list stands in the text
abbrev pub Blocked : List ℕ → List String → Type 0
Blocked text words = (word : String) × In word words × Occurs (codes word) text

some_word→Blocked :
    (text : List ℕ) (words : List String) → some_word text words ≡ true → Blocked text words
unfolding some_word
some_word→Blocked text [] h = cc h
some_word→Blocked text (word ∷ words) h = elim (Bool-cases (has_word text (codes word))) [
  | inl e ↦ (word, here, has_word→Occurs text (codes word) e)
  | inr e ↦
      let (other, m, occurs) = some_word→Blocked text words (rw (some_word, e) at h) in
      (other, there m, occurs)
]

In→some_word :
    (text : List ℕ) (words : List String) (word : String)
    → In word words
    → has_word text (codes word) ≡ true
    → some_word text words ≡ true
unfolding some_word
In→some_word text [] word m h = elim m [ ]
In→some_word text (x ∷ words) word here h = rw h refl
In→some_word text (x ∷ words) word (there m) h = ground (arith, In→some_word text words word m h)

-- a word that the lists have for the production stands in the text
abbrev pub BlockedFor : Map (List String) → String → List ℕ → Type 0
BlockedFor lists production_id text =
    (words : List String) × (get lists production_id ≡ some words) × Blocked text words

get_blacklist→BlockedFor :
    (lists : Map (List String)) (production_id : String) (text : List ℕ)
    → Blocked text (get_blacklist production_id lists)
    → BlockedFor lists production_id text
unfolding get_blacklist
get_blacklist→BlockedFor lists production_id text (word, m, occurs) =
    elim (Option-cases (get lists production_id)) [
      | inl missed ↦ absurd (no_word (rw missed at m))
      | inr (words, found) ↦ (words, found, (word, rw found at m, occurs))
    ]
  where
    no_word : In word [] → ⊥
    no_word m = elim m [ ]

get_blacklist-found :
    (lists : Map (List String)) (production_id : String) (words : List String)
    → get lists production_id ≡ some words
    → get_blacklist production_id lists ≡ words
unfolding get_blacklist
get_blacklist-found lists production_id words found = rw found refl

module _ (messages : Table SocialMessage) (lower : String → String) where
  -- A message that comes in is rejected exactly when the analysis calls it toxic or a word that its
  -- production blocks stands in its lower-cased text.
  pub ingest_message_iff :
      (lists : Map (List String)) (answer : Option Analysis) (id production_id : String)
      (payload : SocialMessagePayload) (w w' : World messages.Store Event) (m : SocialMessage)
      → ingest_message messages lower lists answer id production_id payload w ≡ (ok m, w')
      → (m.status ≡ rejected) ↔ (
          ((or_neutral answer).is_toxic ≡ true)
          ⊎ BlockedFor lists production_id (codes (lower payload.content)))
  unfolding ingest_message
  ingest_message_iff lists answer id production_id payload w w' m h =
      let text = codes (lower payload.content) in
      let words = get_blacklist production_id lists in
      let status : m.status ≡ status_of (not (some_word text words)) (or_neutral answer).is_toxic =
        cc h in
      (
        λ out. elim (Bool-cases (or_neutral answer).is_toxic) [
          | inl toxic ↦ inl toxic
          | inr fine ↦ inr (
              get_blacklist→BlockedFor lists production_id text
                (some_word→Blocked text words (blocked _ _ (sym status ∙ out) fine)))
        ],
        λ reason. status ∙ elim reason [
          | inl toxic ↦ by_analysis _ _ toxic
          | inr (blocks, found, (word, there_is, (before, after, same))) ↦ by_word _ _ (
              In→some_word text words word
                (subst (λ ws. In word ws)
                  (sym (get_blacklist-found lists production_id blocks found)) there_is)
                (subst (λ t. has_word t (codes word) ≡ true) (sym same)
                  (Occurs→has_word before after (codes word))))
        ],
      )
    where
      blocked :
          (bad toxic : Bool) → status_of (not bad) toxic ≡ rejected → toxic ≡ false → bad ≡ true
      blocked bad toxic e f = ground (arith, e, f)

      by_analysis : (bad toxic : Bool) → toxic ≡ true → status_of (not bad) toxic ≡ rejected
      by_analysis bad toxic e = ground (arith, e)

      by_word : (bad toxic : Bool) → bad ≡ true → status_of (not bad) toxic ≡ rejected
      by_word bad toxic e = ground (arith, e)

  -- As the service starts, a message to any production that is not called "default" is not rejected
  -- unless the analysis calls it toxic, whatever words it has.
  pub first_words_block_nothing :
      (answer : Option Analysis) (id production_id : String) (payload : SocialMessagePayload)
      (w w' : World messages.Store Event) (m : SocialMessage)
      → ("default" == production_id) ≡ false
      → (or_neutral answer).is_toxic ≡ false
      → ingest_message messages lower first_blacklists answer id production_id payload w
        ≡ (ok m, w')
      → m.status ≡ pending
  unfolding ingest_message first_blacklists get_blacklist get some_word
  first_words_block_nothing answer id production_id payload w w' m other fine h =
      ground (arith, other, fine, h)
