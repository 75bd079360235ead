-- ===== src/Guest/Calls/OnAir.antt =====
-- Which slots are on air.
pub mod Kept
mod Methods
pub mod Sequences
use live_ops_backend.Prelude.{
  ℕ, String, ◌==◌, ◌≡◌, refl, Bool, true, false, not, List, [], ◌∷◌, Option, none, some,
  if◌then◌else◌, get_or, arith, Bool-cases, Option-cases, inl, inr, eq_iff, eq_refl, ==-eq-false,
  ==-false→≢, sym, ap, ◌∙◌, ◌≢◌,
}
use live_ops_backend.Prelude.Map.{Map, get, set, get-set}
use live_ops_backend.Guest.{
  GuestSlotStatus, free, preview, program, GuestSlotConfig, no_config, or_old, merge, with_status,
  config_of, is_program, aired, air_all, put_on_air, slots_of,
}

abbrev pub on_air : Map GuestSlotConfig → String → Bool
on_air slots id = is_program (config_of slots id).status

-- At most one slot is on air.
pub record OneOnAir (slots : Map GuestSlotConfig) : Type 0 where
  pub same : (a b : String) → on_air slots a ≡ true → on_air slots b ≡ true → a ≡ b

aired-off :
    (id key : String) (c : GuestSlotConfig)
    → (key == id) ≡ false
    → is_program (aired id key c).status ≡ false
aired-off id key c other = elim (Bool-cases (is_program c.status)) [
  | inl on ↦ rw (other, on) refl
  | inr off ↦ rw (other, off) off
]

air_all-off :
    (id k : String) (slots : Map GuestSlotConfig)
    → (k == id) ≡ false
    → on_air (air_all id slots) k ≡ false
unfolding air_all get
air_all-off id k [] other = refl
air_all-off id k ((j, c) ∷ slots) other = elim (Bool-cases (j == k)) [
  | inl e ↦ rw e (aired-off id j c (rw ((eq_iff j k).0 e) other))
  | inr e ↦ rw e (air_all-off id k slots other)
]

config_of-set :
    (slots : Map GuestSlotConfig) (id k : String) (c : GuestSlotConfig)
    → config_of (set slots id c) k ≡ (if id == k then c else config_of slots k)
config_of-set slots id k c = elim (Bool-cases (id == k)) [
  | inl e ↦ rw (get-set slots id c k, e) refl
  | inr e ↦ rw (get-set slots id c k, e) refl
]

-- A slot that is put on air is the only one.
pub put_on_air-on_air :
    (id : String) (slots : Map GuestSlotConfig) (k : String)
    → on_air (put_on_air id slots) k ≡ (id == k)
unfolding put_on_air
put_on_air-on_air id slots k =
    let alone = with_status program (config_of (air_all id slots) id) in
    elim (Bool-cases (id == k)) [
      | inl e ↦ rw (config_of-set (air_all id slots) id k alone, e) refl
      | inr e ↦
          let off : (k == id) ≡ false = ==-eq-false k id (λ same. ==-false→≢ id k e (sym same)) in
          rw (config_of-set (air_all id slots) id k alone, e) (air_all-off id k slots off)
    ]

pub put_on_air-OneOnAir :
    (id : String) (slots : Map GuestSlotConfig) → OneOnAir (put_on_air id slots)
put_on_air-OneOnAir id slots = record {
  same = λ a b on_a on_b.
      let at_a = (eq_iff id a).0 (sym (put_on_air-on_air id slots a) ∙ on_a) in
      let at_b = (eq_iff id b).0 (sym (put_on_air-on_air id slots b) ∙ on_b) in sym at_a ∙ at_b;
}

-- A configuration that is off the air, or no more on it than the one before, may take its place.
pub set-OneOnAir :
    (slots : Map GuestSlotConfig) (id : String) (c : GuestSlotConfig)
    → (is_program c.status ≡ true → on_air slots id ≡ true)
    → OneOnAir slots
    → OneOnAir (set slots id c)
set-OneOnAir slots id c less one = record {
  same = λ a b on_a on_b. one.same a b (before a on_a) (before b on_b);
}
  where
    before : (a : String) → on_air (set slots id c) a ≡ true → on_air slots a ≡ true
    before a on = elim (Bool-cases (id == a)) [
      | inl e ↦
          let on_c : is_program c.status ≡ true = rw (config_of-set slots id a c, e) at on in
          rw (← (eq_iff id a).0 e) (less on_c)
      | inr e ↦ rw (config_of-set slots id a c, e) at on
    ]
