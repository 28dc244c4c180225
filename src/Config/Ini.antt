-- ===== src/Config/Ini.antt =====
-- What `config_load` leaves in the table where the database is in the INI file.
use nagios_snmp.Base.{
  Bool, true, false, ◌||◌, List, [], ◌∷◌, Option, none, some, Bytes, CString, codes, equal,
  equal_iff, ok, ◌>>=◌, if◌then◌else◌, All, ◌≡◌, ◌≢◌, refl, ap, arith, ◌∙◌, Bool-cases, inl, inr,
  Option-cases,
}
use nagios_snmp.Util.{is_empty, xstrdup}
use nagios_snmp.Util.Strings.{is_empty-ne-nil}
use nagios_snmp.Config.{OptionElement, Options, set_from, set_option_value, config_get_option_value}
use nagios_snmp.Config.Load.{
  Ini, System, default_file, file_from, parse_file, login_keys, any_empty, set_required,
  set_tokenizer, load_login, config_load,
}
use nagios_snmp.Config.Table.{
  find, reads, config_get_option_value-find, IsOptional, replaced, set_from_done,
  set_from-IsOptional, find-set_from,
}

-- Values set behind the file's: the last one of a key counts.
abbrev pub overlay : List (Bytes × Bytes) → Bytes → CString → CString
overlay [] k v = v
overlay ((key, value) ∷ ps) k v = overlay ps k (if equal key k then some value else v)

abbrev pub under : List (Bytes × Bytes) → Bytes → Option CString → Option CString
under ps k none = none
under ps k (some v) = some (overlay ps k v)

abbrev pub set_all : List (Bytes × Bytes) → Options → Options
set_all [] os = os
set_all ((key, value) ∷ ps) os = set_all ps (set_from key (some value) os).1

abbrev pub IsPair : Bytes × Bytes → Type 0
IsPair p = (p.0 ≢ []) × (p.1 ≢ [])

xstrdup-ne-nil : (s : Bytes) → s ≢ [] → xstrdup (some s) ≡ some s
unfolding xstrdup
xstrdup-ne-nil s h = rw (is_empty-ne-nil s h) refl

pub set_required_done :
    (key value : Bytes) (os : Options)
    → key ≢ []
    → value ≢ []
    → IsOptional os
    → set_required key value os ≡ ok (set_from key (some value) os).1
unfolding set_required set_option_value
set_required_done key value os h k opt =
    let done = set_from_done key (some value) os opt in
    rw (is_empty-ne-nil key h) (rw (is_empty-ne-nil value k) (rw done refl))

replaced-under :
    (key value : Bytes) (ps : List (Bytes × Bytes)) (k : Bytes) (o : Option CString)
    → value ≢ []
    → under ps k (replaced key (some value) k o) ≡ under ((key, value) ∷ ps) k o
replaced-under key value ps k none h = refl
replaced-under key value ps k (some v) h = rw (xstrdup-ne-nil value h) refl

pub find-set_all :
    (ps : List (Bytes × Bytes)) (k : Bytes) (os : Options)
    → All IsPair ps
    → IsOptional os
    → find k (set_all ps os) ≡ under ps k (find k os)
find-set_all [] k os h opt = elim (Option-cases (find k os)) [
  | inl e ↦ rw e refl
  | inr p ↦ rw p.1 refl
]
find-set_all ((key, value) ∷ ps) k os h opt =
    find-set_all ps k (set_from key (some value) os).1 h.1
      (set_from-IsOptional key (some value) os opt)
    ∙ ap (under ps k) (find-set_from key (some value) k os opt)
    ∙ replaced-under key value ps k (find k os) h.0.1

abbrev pub tokenizer_pairs : CString → List (Bytes × Bytes)
tokenizer_pairs none = []
tokenizer_pairs (some []) = []
tokenizer_pairs (some (c ∷ s)) = (codes ":trap_tokenizer", c ∷ s) ∷ []

pub tokenizer_pairs-IsPair : (tokenizer : CString) → All IsPair (tokenizer_pairs tokenizer)
tokenizer_pairs-IsPair none = tt
tokenizer_pairs-IsPair (some []) = tt
tokenizer_pairs-IsPair (some (c ∷ s)) = ((λ e. cc, λ e. cc), tt)

pub set_tokenizer-set_all :
    (sys : System) (tokenizer : CString) (os : Options)
    → IsOptional os
    → set_tokenizer sys tokenizer os ≡ ok (set_all (tokenizer_pairs tokenizer) os)
unfolding set_tokenizer is_empty
set_tokenizer-set_all sys none os opt = refl
set_tokenizer-set_all sys (some []) os opt = refl
set_tokenizer-set_all sys (some (c ∷ s)) os opt =
    set_required_done (codes ":trap_tokenizer") (c ∷ s) os (λ e. cc) (λ e. cc) opt

module _ (I : Ini) (d : I.Dictionary) where
  -- The value of an option behind the file: the file's, or else the default; empty is NULL.
  abbrev pub effective : Bytes → CString → CString
  effective k default = xstrdup (elim (I.value_of d k) [ none ↦ default | some v ↦ some v ])

  abbrev pub setting : Bytes → Option CString → Option CString
  setting k none = none
  setting k (some default) = some (effective k default)

  file_from_done : (os : Options) → IsOptional os → (file_from I d os).0 ≡ true
  unfolding file_from
  file_from_done [] h = refl
  file_from_done (o ∷ os) h = ground (arith, file_from_done os h.1)

  pub file_from-IsOptional : (os : Options) → IsOptional os → IsOptional (file_from I d os).1
  unfolding file_from
  file_from-IsOptional [] h = tt
  file_from-IsOptional (o ∷ os) h = ground (arith, file_from-IsOptional os h.1)

  file_from-cons :
      (o : OptionElement) (os : Options)
      → o.mandatory ≡ false
      → (file_from I d (o ∷ os)).1
        ≡ record o { value = effective o.key o.value } ∷ (file_from I d os).1
  unfolding file_from xstrdup
  file_from-cons o os h = rw (I.getstring_lem d o.key o.value) (ground arith)

  pub find-file_from :
      (k : Bytes) (os : Options)
      → IsOptional os
      → find k (file_from I d os).1 ≡ setting k (find k os)
  unfolding file_from
  find-file_from k [] h = refl
  find-file_from k (o ∷ os) h = elim (Bool-cases (equal o.key k)) [
    | inl same ↦
        let e = (equal_iff o.key k).0 same in rw (file_from-cons o os h.0) (rw same (rw e refl))
    | inr other ↦ rw (file_from-cons o os h.0) (rw other (find-file_from k os h.1))
  ]

  -- Is a parameter of the database missing behind the file?
  abbrev pub lacks : List Bytes → Options → Bool
  lacks [] os = false
  lacks (k ∷ ks) os = elim (setting k (find k os)) [
    | none ↦ false
    | some v ↦ is_empty v || lacks ks os
  ]

  abbrev pub IsKnown : Bytes → Options → Type 0
  IsKnown k os = (v : CString) × (find k os ≡ some v)

  lacks-cons :
      (k : Bytes) (ks : List Bytes) (os : Options) (v : CString)
      → find k os ≡ some v
      → lacks (k ∷ ks) os ≡ (is_empty (effective k v) || lacks ks os)
  lacks-cons k ks os v e = rw (lacks, e) refl

  any_empty-lacks :
      (ks : List Bytes) (os : Options)
      → IsOptional os
      → All (λ k. IsKnown k os) ks
      → any_empty ks (file_from I d os).1 ≡ ok (lacks ks os)
  unfolding any_empty
  any_empty-lacks [] os opt h = refl
  any_empty-lacks (k ∷ ks) os opt h =
      let e =
        config_get_option_value-find k (file_from I d os).1 ∙ ap reads (find-file_from k os opt) in
      let ih = any_empty-lacks ks os opt h.1 in
      let here = lacks-cons k ks os h.0.0 h.0.1 in
      rw (e, here)
        (rw h.0.1 (elim (Bool-cases (is_empty (effective k h.0.0))) [
          | inl gone ↦ rw gone refl
          | inr there ↦ rw there ih
        ]))

  parse_file-file_from :
      (config_file : CString) (os : Options)
      → I.load (elim config_file [ none ↦ default_file | some name ↦ name ]) ≡ some d
      → parse_file I config_file os ≡ file_from I d os
  unfolding parse_file
  parse_file-file_from config_file os e = rw (parse_file, e) refl

  -- What is left to do behind the file.
  pub config_load-file_from :
      (sys : System) (config_file tokenizer : CString) (os : Options)
      → I.load (elim config_file [ none ↦ default_file | some name ↦ name ]) ≡ some d
      → IsOptional os
      → All (λ k. IsKnown k os) login_keys
      → config_load sys I config_file tokenizer os ≡ (
          (if lacks login_keys os
            then load_login sys (file_from I d os).1
            else ok (file_from I d os).1)
          >>= set_tokenizer sys tokenizer)
  unfolding config_load
  config_load-file_from sys config_file tokenizer os e opt h =
      rw (parse_file-file_from config_file os e)
        (rw (file_from_done os opt) (rw (any_empty-lacks login_keys os opt h) refl))

  -- Where the INI file can be read and no parameter of the database is empty behind it, the options
  -- are loaded, and each reads as the tokenizer of the command line, if it is that option and one was
  -- given, or else as the file's value, or else as its default, where an empty value is NULL; to
  -- read a key that is no option ends the program. No option is mandatory.
  pub config_load-reads :
      (sys : System) (config_file tokenizer : CString) (os : Options) (k : Bytes)
      → I.load (elim config_file [ none ↦ default_file | some name ↦ name ]) ≡ some d
      → IsOptional os
      → All (λ key. IsKnown key os) login_keys
      → lacks login_keys os ≡ false
      → (config_load sys I config_file tokenizer os >>= config_get_option_value k)
        ≡ reads (under (tokenizer_pairs tokenizer) k (setting k (find k os)))
  config_load-reads sys config_file tokenizer os k e opt known given =
      let opt' = file_from-IsOptional os opt in
      rw (config_load-file_from sys config_file tokenizer os e opt known) (
        rw given (
          rw (set_tokenizer-set_all sys tokenizer (file_from I d os).1 opt') (
            config_get_option_value-find k
              (set_all (tokenizer_pairs tokenizer) (file_from I d os).1)
            ∙ ap reads (
                find-set_all (tokenizer_pairs tokenizer) k (file_from I d os).1
                  (tokenizer_pairs-IsPair tokenizer) opt')
            ∙ ap (λ o. reads (under (tokenizer_pairs tokenizer) k o)) (find-file_from k os opt))))
