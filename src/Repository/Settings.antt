-- ===== src/Repository/Settings.antt =====
-- src/mirenai/repository/settings.py and cache_control.py: the table of settings, which also holds
-- the request to flush the cache. The conversions of floats are arguments, as is `isoformat`.
pub mod Flush
use mirenai.Python.Dict
use mirenai.Prelude.{
  Bool, Bool-cases, List, Option, Option-cases, [], ap, arith, beq_refl, contains, false,
  if◌then◌else◌, inl, inr, length, list_beq_iff, list_eq, nat_eq, none, not, pair_eq, refl, some,
  subst, sym, true, ℕ, ◌&&◌, ◌==◌, ◌||◌, ◌∙◌, ◌∷◌, ◌≡◌, ◌≤◌,
}
use mirenai.Python.Dict.{Dict}
use mirenai.Python.Int.{parse_int}
use mirenai.Python.Int.Digits.{show}
use mirenai.Python.Int.Round.{parse_int-show}
use mirenai.Python.Str.Strip.{lower, strip}
use mirenai.Python.Text.{Text, codes}

-- a value of a setting; an integer has its sign, `true` for minus
pub data Value (F : Type 0) : Type 0 where
  null : Value F
  of_bool : Bool → Value F
  of_int : Bool × ℕ → Value F
  of_float : F → Value F
  of_text : Text → Value F

abbrev pub bool_keys : List Text
bool_keys =
    codes "cache_enabled"
    ∷ codes "log_queries"
    ∷ codes "ipv6_enabled"
    ∷ codes "drop_private_ptr"
    ∷ []

abbrev pub int_keys : List Text
int_keys =
    codes "cache_max_ttl"
    ∷ codes "cache_min_ttl"
    ∷ codes "cache_max_entries"
    ∷ codes "refresh_seconds"
    ∷ codes "query_flush_seconds"
    ∷ []

abbrev pub float_keys : List Text
float_keys = codes "forward_timeout" ∷ []

abbrev pub text_keys : List Text
text_keys = codes "default_action" ∷ []

abbrev pub is_known : Text → Bool
is_known key =
    contains bool_keys key
    || contains int_keys key
    || contains float_keys key
    || contains text_keys key

-- `{"1", "true", "yes", "on"}`
abbrev pub truthy : List Text
truthy = codes "1" ∷ codes "true" ∷ codes "yes" ∷ codes "on" ∷ []

abbrev pub show_int : Bool × ℕ → Text
show_int i = if i.0 && not (i.1 == 0) then b'-' ∷ show i.1 else show i.1

module _ {F : Type 0} (read_float : Text → Option F) (show_float : F → Text) (five : F) where
  -- `_coerce`: a text that is no number gives the default
  unfoldable pub coerce : Text → Text → Value F → Value F
  coerce key raw default =
      if contains bool_keys key
      then of_bool (contains truthy (lower (strip raw)))
      else if contains int_keys key
      then (elim (parse_int raw) [ none ↦ default | some i ↦ of_int i ])
      else if contains float_keys key
      then (elim (read_float raw) [ none ↦ default | some x ↦ of_float x ])
      else of_text raw

  -- `_serialize`: `str(None)` is `None`
  unfoldable pub serialize : Value F → Text
  serialize null = codes "None"
  serialize (of_bool true) = codes "true"
  serialize (of_bool false) = codes "false"
  serialize (of_int i) = show_int i
  serialize (of_float x) = show_float x
  serialize (of_text s) = s

  -- the fields of `RuntimeSettings` with their defaults
  abbrev pub setting_defaults : Dict Text (Value F)
  setting_defaults =
      (codes "cache_enabled", of_bool true)
      ∷ (codes "cache_max_ttl", of_int (false, 3600))
      ∷ (codes "cache_min_ttl", of_int (false, 0))
      ∷ (codes "cache_max_entries", of_int (false, 10000))
      ∷ (codes "forward_timeout", of_float five)
      ∷ (codes "default_action", of_text (codes "forward"))
      ∷ (codes "refresh_seconds", of_int (false, 10))
      ∷ (codes "query_flush_seconds", of_int (false, 5))
      ∷ (codes "log_queries", of_bool true)
      ∷ (codes "ipv6_enabled", of_bool true)
      ∷ (codes "drop_private_ptr", of_bool true)
      ∷ []

  -- the stored value of a field, or its default
  abbrev pub read_value : Text → Value F → Option Text → Value F
  read_value key default none = default
  read_value key default (some raw) = coerce key raw default

  abbrev pub merged_value : Dict Text Text → Text → Value F → Value F
  merged_value t key default = read_value key default (Dict.get key t)

  abbrev pub merged : Dict Text Text → Dict Text (Value F) → Dict Text (Value F)
  merged t [] = []
  merged t ((key, default) ∷ defaults) = (key, merged_value t key default) ∷ merged t defaults

  -- `load_runtime_settings`, as the dictionary that `get_all_settings` returns
  unfoldable pub load_runtime_settings : Dict Text Text → Dict Text (Value F)
  load_runtime_settings t = merged t setting_defaults

  -- the upserts of the known keys
  abbrev pub put_settings : List (Text × Value F) → Dict Text Text → Dict Text Text
  put_settings [] t = t
  put_settings ((key, v) ∷ vs) t =
      put_settings vs (if is_known key then Dict.put key (serialize v) t else t)

  unfoldable pub update_settings :
      List (Text × Value F) → Dict Text Text → Dict Text Text × Dict Text (Value F)
  update_settings vs t = (put_settings vs t, load_runtime_settings (put_settings vs t))

  -- The value has the type of the setting, and a number fits what `int` reads.
  abbrev pub Fits : Text → Value F → Type 0
  Fits key null = ⊥
  Fits key (of_bool b) = contains bool_keys key ≡ true
  Fits key (of_int i) =
      (contains bool_keys key ≡ false)
      × (contains int_keys key ≡ true)
      × (i.0 ≡ false)
      × (length (show i.1) ≤ 4300)
  Fits key (of_float x) =
      (contains bool_keys key ≡ false)
      × (contains int_keys key ≡ false)
      × (contains float_keys key ≡ true)
  Fits key (of_text s) =
      (contains bool_keys key ≡ false)
      × (contains int_keys key ≡ false)
      × (contains float_keys key ≡ false)

  pub coerce-serialize :
      ((x : F) → read_float (show_float x) ≡ some x)
      → (key : Text) (v default : Value F) → Fits key v
      → coerce key (serialize v) default ≡ v
  unfolding coerce serialize
  coerce-serialize law key null default h = absurd h
  coerce-serialize law key (of_bool true) default h = rw h (unfold strip lower in refl)
  coerce-serialize law key (of_bool false) default h = rw h (unfold strip lower in refl)
  coerce-serialize law key (of_int (minus, n)) default h =
      rw (h.0, h.1, h.2, parse_int-show n h.3) refl
  coerce-serialize law key (of_float x) default h = rw (h.0, h.1, h.2, law x) refl
  coerce-serialize law key (of_text s) default h = rw (h.0, h.1, h.2) refl

  get-merged :
      (t : Dict Text Text) (key : Text) (defaults : Dict Text (Value F))
      → Dict.get key (merged t defaults)
        ≡ (elim (Dict.get key defaults) [ none ↦ none | some d ↦ some (merged_value t key d) ])
  unfolding Dict.get
  get-merged t key [] = refl
  get-merged t key ((k, d) ∷ defaults) = elim (Bool-cases (k == key)) [
    | inl same ↦ rw (same, sym ((list_beq_iff k key).0 same)) refl
    | inr other ↦ rw other (get-merged t key defaults)
  ]

  update_settings-one :
      (key : Text) (v : Value F) (t : Dict Text Text)
      → is_known key ≡ true
      → (update_settings ((key, v) ∷ []) t).1
        ≡ merged (Dict.put key (serialize v) t) setting_defaults
  unfolding update_settings load_runtime_settings
  update_settings-one key v t known =
      ap (λ b. merged (if b then Dict.put key (serialize v) t else t) setting_defaults) known

  merged_value-put :
      (key j : Text) (v d : Value F) (t : Dict Text Text)
      → merged_value (Dict.put key (serialize v) t) j d
        ≡ (if key == j then coerce j (serialize v) d else merged_value t j d)
  merged_value-put key j v d t =
      ap (read_value j d) (Dict.get-put key j (serialize v) t)
      ∙ (elim (Bool-cases (key == j)) [ inl same ↦ rw same refl | inr other ↦ rw other refl ])

  get-merged-put :
      ((x : F) → read_float (show_float x) ≡ some x)
      → (defaults : Dict Text (Value F)) (key j : Text) (v d : Value F) (t : Dict Text Text)
      → Fits key v
      → Dict.get key defaults ≡ some d
      → Dict.get j (merged (Dict.put key (serialize v) t) defaults)
        ≡ (if key == j then some v else Dict.get j (merged t defaults))
  get-merged-put law defaults key j v d t fits there = elim (Bool-cases (key == j)) [
    | inl same ↦
        let e : key ≡ j = (list_beq_iff key j).0 same in
        let here : Dict.get j defaults ≡ some d = ap (λ k. Dict.get k defaults) (sym e) ∙ there in
        let fits' : Fits j v = subst (λ k. Fits k v) e fits in
        let value : merged_value (Dict.put key (serialize v) t) j d ≡ v =
          merged_value-put key j v d t ∙ rw same (coerce-serialize law j v d fits') in
        get-merged (Dict.put key (serialize v) t) j defaults ∙ rw (here, value, same) refl
    | inr other ↦
        rw (get-merged (Dict.put key (serialize v) t) j defaults, get-merged t j defaults, other)
          (elim (Option-cases (Dict.get j defaults)) [
            | inl absent ↦ rw absent refl
            | inr (c, found) ↦ rw found (ap some (merged_value-put key j v c t ∙ rw other refl))
          ])
  ]

  -- A setting that is written reads back as the value that was written, if the value has the type of
  -- the setting; every other setting reads as before.
  pub get-update_settings :
      ((x : F) → read_float (show_float x) ≡ some x)
      → (key j : Text) (v d : Value F) (t : Dict Text Text) → is_known key ≡ true
      → Fits key v
      → Dict.get key setting_defaults ≡ some d
      → Dict.get j (update_settings ((key, v) ∷ []) t).1
        ≡ (if key == j then some v else Dict.get j (load_runtime_settings t))
  get-update_settings law key j v d t known fits there =
      ap (Dict.get j) (update_settings-one key v t known)
      ∙ get-merged-put law setting_defaults key j v d t fits there
      ∙ unfold load_runtime_settings in refl

  -- An explicit null, which the API accepts, switches a boolean setting off.
  pub get-update_settings_null :
      (key : Text) (d : Value F) (t : Dict Text Text)
      → contains bool_keys key ≡ true
      → Dict.get key setting_defaults ≡ some d
      → Dict.get key (update_settings ((key, null) ∷ []) t).1 ≡ some (of_bool false)
  get-update_settings_null key d t boolean there =
      let off : coerce key (serialize null) d ≡ of_bool false =
        unfold coerce serialize strip lower in rw boolean refl in
      ap (Dict.get key) (update_settings-one key null t (ground arith))
      ∙ get-merged (Dict.put key (serialize null) t) key setting_defaults
      ∙ rw there (ap some (merged_value-put key key null d t ∙ rw (beq_refl key) off))
