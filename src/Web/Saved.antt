-- ===== src/Web/Saved.antt =====
-- `webapp.py` and `main.py`: the settings behind a change at the console and a restart.
use inter_gate.Base.{
  String, ◌≡◌, refl, ap, ◌∙◌, Bool, true, false, Option, none, some, [], ◌∷◌, string_eq,
  Option-cases, inl, inr, arith,
}
use inter_gate.Base.Int.{ℤ, pos}
use inter_gate.Base.Dict
use inter_gate.Base.Dict.{Dict, lookup-insert_self}
use inter_gate.Json
use inter_gate.Json.{Json}
use Json.{num, obj}
use inter_gate.Store.{Database, get_setting, set_setting}
use inter_gate.Settings.{
  UserSettings, known_from, from_dict, to_fields, of_fields, save_settings, load_settings,
}
use inter_gate.Web.Settings.{
  int_fields, float_fields, updated, as_num, convert_all, is_port, port_or_absent, ports_ok,
  stored_if, put_settings,
}
use inter_gate.Usage.{int}

of_fields-to_fields : (s : UserSettings) → of_fields (to_fields s) ≡ s
unfolding of_fields to_fields
of_fields-to_fields [] = refl
of_fields-to_fields ((name, value) ∷ s) = ap (λ r. (name, value) ∷ r) (of_fields-to_fields s)

from_dict-from_dict : (d : Dict String Json) → from_dict (from_dict d) ≡ from_dict d
unfolding from_dict known_from Dict.lookup
from_dict-from_dict d = refl

load_settings-save_settings :
    (db : Database) (d : Dict String Json)
    → (load_settings (save_settings db (from_dict d))).0 ≡ from_dict d
unfolding load_settings save_settings get_setting set_setting
load_settings-save_settings db d =
    rw (lookup-insert_self "user_settings" (obj (to_fields (from_dict d))) db.settings)
      (ap from_dict (of_fields-to_fields (from_dict d)) ∙ from_dict-from_dict d)

module _ (int_of : String → Option ℤ) (float : Json → Option Json) where
  -- What holds behind a change of the settings that is accepted.
  pub record IsSaved (s : UserSettings) (db : Database) : Type 0 where
    pub port : (j : Json) × (Dict.lookup "port" s ≡ some j) × (is_port int_of float j ≡ true)
    pub web_port :
        (j : Json) × (Dict.lookup "web_port" s ≡ some j) × (is_port int_of float j ≡ true)
    pub reloaded : (load_settings db).0 ≡ s

  or_port :
      (o : Option Json) (v : Json)
      → port_or_absent int_of float o ≡ true
      → is_port int_of float v ≡ true
      → is_port int_of float (elim o [ none ↦ v | some w ↦ w ]) ≡ true
  or_port none v h k = k
  or_port (some w) v h k = h

  stored-IsSaved :
      (b : Bool) (e : Dict String Json) (db db' : Database) (s' : UserSettings)
      → ports_ok int_of float e ≡ b
      → stored_if int_of float b db (from_dict e) ≡ some (s', db')
      → IsSaved s' db'
  unfolding from_dict known_from Dict.lookup int
  stored-IsSaved false e db db' s' p h = cc
  stored-IsSaved true e db db' s' p h =
      let same : s' ≡ from_dict e = cc in
      let saved : db' ≡ save_settings db (from_dict e) = cc in
      let first : port_or_absent int_of float (Dict.lookup "port" e) ≡ true = ground (arith, p) in
      let second : port_or_absent int_of float (Dict.lookup "web_port" e) ≡ true =
        ground (arith, p) in
      rw (same, saved)
        (record {
          port = (_, refl, or_port (Dict.lookup "port" e) (num (pos 51_234)) first refl);
          web_port = (_, refl, or_port (Dict.lookup "web_port" e) (num (pos 51_235)) second refl);
          reloaded = load_settings-save_settings db e;
        })

  -- Settings that the console accepts have both ports between 1 and 65535, whatever the request
  -- holds, and a restart loads exactly these settings from the database.
  pub put_settings-IsSaved :
      (db db' : Database) (s s' : UserSettings) (body : Dict String Json)
      → put_settings int_of float db s body ≡ some (s', db')
      → IsSaved s' db'
  unfolding put_settings
  put_settings-IsSaved db db' s s' body h =
      let ints =
        convert_all int_of float (λ j. as_num int_of float (int int_of j)) int_fields
          (updated s body) in
      elim (Option-cases ints) [
        | inl p ↦ let r = rw (put_settings, p) at h in cc
        | inr (d, p) ↦ elim (Option-cases (convert_all int_of float float float_fields d)) [
          | inl q ↦ let r = rw (put_settings, p, q) at h in cc
          | inr (e, q) ↦
              stored-IsSaved (ports_ok int_of float e) e db db' s' refl
                (rw (put_settings, p, q) at h)
        ]
      ]
