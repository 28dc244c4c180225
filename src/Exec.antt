-- ===== src/Exec.antt =====
-- src/exec.c, `parse_result_str`: a line that a plugin prints, read as a result.
pub mod Run
pub mod Start
pub mod Bounded
pub mod Output
pub mod Line
pub mod Finished
pub mod Handled
pub mod Confirmed
use nagios_snmp.Base.{
  ℕ, zero, suc, ◌+◌, Bool, true, false, not, ◌&&◌, ◌||◌, List, [], ◌∷◌, ◌++◌, Option, none, some,
  Bytes, CString, codes, equal, Result, ok, fault, null_deref, out_of_fuel, ◌>>=◌, ◌>>◌, ltb, ◌==◌,
  if◌then◌else◌, length, deref,
}
use nagios_snmp.Base.Int.{ℤ, pos, negsuc, atoi}
use nagios_snmp.Util.{is_empty, xstrdup, is_integer, remove_chars, extract_filename}
use nagios_snmp.Db.Tables.{HashTable}
use nagios_snmp.Db.{
  same_int, Db, db_extract_host_address, db_extract_host_name, db_extract_svc_desc,
}
use nagios_snmp.Execlist.{Kind, for_host, for_svc, for_either}

-- `timestamp` is set by `stack_run`.
pub record ExecResult : Type 0 where
  pub is_complete : Bool
  pub is_service : Bool
  pub use_sender_address : Bool
  pub timestamp : ℕ
  pub host_address : CString
  pub host_name : CString
  pub svc_desc : CString
  pub ret_value : ℤ
  pub output : CString
  pub perfdata : CString
  pub is_valid_svc_id : Bool
  pub svc_id : ℤ

-- `strsep` at a bar: every field, the empty ones too.
unfoldable pub separate : Bytes → List Bytes
separate [] = [] ∷ []
separate (c ∷ s) =
    let rest = separate s in
    if c == b'|' then [] ∷ rest else elim rest [ [] ↦ (c ∷ []) ∷ [] | f ∷ fs ↦ (c ∷ f) ∷ fs ]

pub data ResultStatus : Type 0 where
  r_started r_host_address r_host_name r_svc_desc r_ret_value r_output r_perfdata r_svc_id :
      ResultStatus

-- The seven local pointers.
pub record Fields : Type 0 where
  pub host_address : CString
  pub host_name : CString
  pub svc_desc : CString
  pub ret_value : CString
  pub output : CString
  pub perfdata : CString
  pub svc_id : CString

abbrev pub no_fields : Fields
no_fields = record {
  host_address = none;
  host_name = none;
  svc_desc = none;
  ret_value = none;
  output = none;
  perfdata = none;
  svc_id = none;
}

unfoldable pub field_loop : ResultStatus → Fields → List Bytes → Fields
field_loop status f [] = f
field_loop r_started f (t ∷ ts) = field_loop r_host_address (record f { host_address = some t }) ts
field_loop r_host_address f (t ∷ ts) = field_loop r_host_name (record f { host_name = some t }) ts
field_loop r_host_name f (t ∷ ts) = field_loop r_svc_desc (record f { svc_desc = some t }) ts
field_loop r_svc_desc f (t ∷ ts) = field_loop r_ret_value (record f { ret_value = some t }) ts
field_loop r_ret_value f (t ∷ ts) = field_loop r_output (record f { output = some t }) ts
field_loop r_output f (t ∷ ts) = field_loop r_perfdata (record f { perfdata = some t }) ts
field_loop r_perfdata f (t ∷ ts) = field_loop r_svc_id (record f { svc_id = some t }) ts
field_loop r_svc_id f (t ∷ ts) = field_loop r_svc_id f ts

-- `is_service` of the result: the plugin's own choice is made by its service.
abbrev pub settle_kind : Kind → CString → Bool
settle_kind for_host svc_desc = false
settle_kind for_svc svc_desc = true
settle_kind for_either svc_desc = not (is_empty svc_desc)

-- A field that the plugin left empty, filled from the tables where these have one.
abbrev pub fill : CString → Option ℕ → Result CString → Result CString
fill field none found = ok field
fill field (some p) found =
    if is_empty field
    then (found >>= λ value. ok (if is_empty value then field else xstrdup value))
    else ok field

module _ (S : HashTable Bytes equal) (I : HashTable ℤ same_int) where
  -- `if (result->is_complete)`: the defaults of a complete result.
  unfoldable pub fill_fields : Db S I → Option ℕ → Option ℕ → ExecResult → Result ExecResult
  unfolding is_empty xstrdup
  fill_fields db host svc r =
      if not r.is_complete
      then ok r
      else if not r.is_service
      then (do
        address ← fill r.host_address host (db_extract_host_address S I db host none)
        name ← fill r.host_name host (db_extract_host_name S I db host none)
        ok (record r { host_address = address; host_name = name }))
      else (do
        address ← fill r.host_address svc (db_extract_host_address S I db none svc)
        name ← fill r.host_name svc (db_extract_host_name S I db none svc)
        desc ← fill r.svc_desc svc (db_extract_svc_desc S I db svc)
        ok (record r { host_address = address; host_name = name; svc_desc = desc }))

  unfoldable pub result_of : Db S I → Kind → Option ℕ → Option ℕ → Bool → Fields → Result ExecResult
  unfolding xstrdup is_integer atoi is_empty fill_fields
  result_of db is_service host svc use_sender_address f = do
    ret ← deref f.ret_value
    id ← deref f.svc_id
    fill_fields db host svc (record {
      is_complete = is_integer f.ret_value;
      is_service = settle_kind is_service (xstrdup f.svc_desc);
      use_sender_address = use_sender_address;
      timestamp = 0;
      host_address = xstrdup f.host_address;
      host_name = xstrdup f.host_name;
      svc_desc = xstrdup f.svc_desc;
      ret_value = atoi ret;
      output = xstrdup f.output;
      perfdata = xstrdup f.perfdata;
      is_valid_svc_id = is_integer f.svc_id;
      svc_id = atoi id;
    })

  -- The result NULL is `none`.
  unfoldable pub parse_result_str :
      Db S I → CString → Kind → Option ℕ → Option ℕ → Bool → Result (Option ExecResult)
  unfolding remove_chars separate field_loop result_of
  parse_result_str db result_str is_service host svc use_sender_address =
      elim (remove_chars result_str (b'\n' ∷ b'\r' ∷ [])) [
        | none ↦ ok none
        | some line ↦
            result_of db is_service host svc use_sender_address
              (field_loop r_started no_fields (separate line))
            >>= λ r. ok (some r)
      ]
