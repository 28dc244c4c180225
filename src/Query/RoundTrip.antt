-- ===== src/Query/RoundTrip.antt =====
-- A file of statements is read back as its statements.
use nagios_snmp.Base.{
  ◌+◌, true, false, List, [], ◌∷◌, ◌++◌, map, Option, none, some, Bytes, lt→leb_false, length,
  length-append, All, All-append, All-map, ◌≡◌, ◌≢◌, refl, ap, sym, arith, append_assoc, append-nil,
  ◌∙◌, Result, ok,
}
use nagios_snmp.Util.{is_empty, non_empty}
use nagios_snmp.Util.Strings.{non_empty_id, is_empty-ne-nil}
use nagios_snmp.Regex.{Pcre, regex_compile, regex_execute}
use nagios_snmp.Query.{
  QueryTable, Reader, end_marker, q_name_size, fresh_reader, copy_name, append_body, add_line,
  store_found, end_query, read_line, read_pieces, query_parse, query_init, query_fetch,
}
use nagios_snmp.Query.Lines.{IsLine, ended, file_of, fgets-file_of, read_piece-ended}
use nagios_snmp.Query.Statements.{
  IsName, begin_line, Marks, Statement, lines_of, joined, stored, lookup, query_fetch-stored,
  IsLine-begin_line, query_store-stored, IsNoise, IsBody, IsStatement,
}

-- The two states between lines.
abbrev outside : Option Bytes → QueryTable → Reader
outside name table = record fresh_reader { q_name = name; table = table }

abbrev reading : Bytes → Bytes → QueryTable → Reader
reading name body table = record {
  inside = true;
  q_found = true;
  q_name = some name;
  q_body = body;
  q_body_len = length body + 1;
  table = table;
}

module _ (P : Pcre) (m : Marks P) where
  abbrev lines_read : List Bytes → Reader → Result Reader
  lines_read ls r = read_pieces P (some m.begins) (some m.ends) (map ended ls) r

  -- One line that is not empty.
  lines_read-line :
      (l : Bytes) (ls : List Bytes) (r r' : Reader)
      → IsLine l
      → l ≢ []
      → read_line P (some m.begins) (some m.ends) l r.inside r ≡ ok r'
      → lines_read (l ∷ ls) r ≡ lines_read ls r'
  unfolding read_pieces
  lines_read-line l ls r r' h ne e =
      rw (read_piece-ended P (some m.begins) (some m.ends) l r h.0)
        (rw (non_empty_id l ne) (rw e refl))

  lines_read-noise :
      (l : Bytes) (ls : List Bytes) (name : Option Bytes) (table : QueryTable)
      → (IsNoise P m) l
      → lines_read (l ∷ ls) (outside name table) ≡ lines_read ls (outside name table)
  unfolding read_pieces read_line regex_execute fresh_reader non_empty is_empty
  lines_read-noise [] ls name table h =
      rw (read_piece-ended P (some m.begins) (some m.ends) [] (outside name table) h.0.0) refl
  lines_read-noise (c ∷ l) ls name table h =
      lines_read-line (c ∷ l) ls (outside name table) (outside name table) h.0 (λ e. cc)
        (rw h.1 refl)

  lines_read-All_noise :
      (noise ls : List Bytes) (name : Option Bytes) (table : QueryTable)
      → All (IsNoise P m) noise
      → lines_read (noise ++ ls) (outside name table) ≡ lines_read ls (outside name table)
  lines_read-All_noise [] ls name table h = refl
  lines_read-All_noise (l ∷ noise) ls name table h =
      lines_read-noise l (noise ++ ls) name table h.0 ∙ lines_read-All_noise noise ls name table h.1

  read_line-body :
      (l : Bytes) (r : Reader)
      → (IsBody P m) l
      → read_line P (some m.begins) (some m.ends) l true r ≡ ok (add_line l r)
  unfolding read_line regex_execute
  read_line-body l r h = rw (read_line, regex_execute, is_empty-ne-nil l h.1) (rw h.2 refl)

  lines_read-body :
      (more ls : List Bytes) (name body : Bytes) (table : QueryTable)
      → All (IsBody P m) more
      → lines_read (more ++ ls) (reading name body table)
        ≡ lines_read ls (reading name (joined body more) table)
  unfolding add_line append_body
  lines_read-body [] ls name body table h = refl
  lines_read-body (l ∷ more) ls name body table h =
      let one : add_line l (reading name body table) ≡ reading name (body ++ b' ' ∷ l) table =
        ground (arith, length-append body (b' ' ∷ l)) in
      lines_read-line l (more ++ ls) (reading name body table)
        (reading name (body ++ b' ' ∷ l) table) h.0.0 h.0.1
        (read_line-body l (reading name body table) h.0 ∙ ap ok one)
      ∙ lines_read-body more ls name (body ++ b' ' ∷ l) table h.1

  read_line-begin :
      (n : Bytes) (name : Option Bytes) (table : QueryTable)
      → IsName n
      → read_line P (some m.begins) (some m.ends) (begin_line n) false (outside name table)
        ≡ ok (record (outside name table) { inside = true; q_name = some n })
  unfolding read_line regex_execute is_empty copy_name
  read_line-begin n name table h =
      rw (m.finds_begin n h) (rw (lt→leb_false q_name_size (length n) h.2) refl)

  add_line-first :
      (n first : Bytes) (name : Option Bytes) (table : QueryTable)
      → add_line first (record (outside name table) { inside = true; q_name = some n })
        ≡ reading n first table
  unfolding add_line append_body fresh_reader
  add_line-first n first name table = ground arith

  read_line-end :
      (q : Statement) (table : QueryTable)
      → (IsStatement P m) q
      → read_line P
          (some m.begins)
          (some m.ends)
          end_marker
          true
          (reading q.name (joined q.first q.more) table)
        ≡ ok (outside (some q.name) (table ++ stored q ∷ []))
  unfolding read_line regex_execute is_empty end_query store_found fresh_reader
  read_line-end q table h = rw m.finds_end (rw (query_store-stored q table h.0.1 h.1.1) refl)

  -- The state behind the begin marker, and what the first line makes of it.
  lines_read-begin :
      (n first : Bytes) (ls : List Bytes) (name : Option Bytes) (table : QueryTable)
      → IsName n
      → (IsBody P m) first
      → lines_read (begin_line n ∷ first ∷ ls) (outside name table)
        ≡ lines_read ls (reading n first table)
  unfolding fresh_reader
  lines_read-begin n first ls name table h k =
      let begun = record (outside name table) { inside = true; q_name = some n } in
      lines_read-line (begin_line n) (first ∷ ls) (outside name table) begun (IsLine-begin_line n h)
        (λ e. cc) (read_line-begin n name table h)
      ∙ lines_read-line first ls begun (reading n first table) k.0 k.1
          (read_line-body first begun k ∙ ap ok (add_line-first n first name table))

  lines_read-end :
      (q : Statement) (ls : List Bytes) (table : QueryTable)
      → (IsStatement P m) q
      → lines_read (end_marker ∷ ls) (reading q.name (joined q.first q.more) table)
        ≡ lines_read ls (outside (some q.name) (table ++ stored q ∷ []))
  lines_read-end q ls table h =
      lines_read-line end_marker ls (reading q.name (joined q.first q.more) table)
        (outside (some q.name) (table ++ stored q ∷ [])) (ground arith) (λ e. cc)
        (read_line-end q table h)

  pub last_name : Option Bytes → List Statement → Option Bytes
  last_name name [] = name
  last_name name (q ∷ qs) = last_name (some q.name) qs

  lines_read-statements :
      (qs : List Statement) (name : Option Bytes) (table : QueryTable)
      → All (IsStatement P m) qs
      → lines_read (lines_of qs) (outside name table)
        ≡ ok (outside (last_name name qs) (table ++ map stored qs))
  unfolding last_name read_pieces
  lines_read-statements [] name table h = ap (λ t. ok (outside name t)) (sym (append-nil table))
  lines_read-statements (q ∷ qs) name table h =
      lines_read-begin q.name q.first (q.more ++ end_marker ∷ (q.after ++ lines_of qs)) name table
        h.0.0 h.0.1
      ∙ lines_read-body q.more (end_marker ∷ (q.after ++ lines_of qs)) q.name q.first table h.0.2
      ∙ lines_read-end q (q.after ++ lines_of qs) table h.0
      ∙ lines_read-All_noise q.after (lines_of qs) (some q.name) (table ++ stored q ∷ []) h.0.3
      ∙ lines_read-statements qs (some q.name) (table ++ stored q ∷ []) h.1
      ∙ ap (λ t. ok (outside (last_name (some q.name) qs) t))
          (append_assoc table (stored q ∷ []) (map stored qs))

  All-statement_lines : (qs : List Statement) → All (IsStatement P m) qs → All IsLine (lines_of qs)
  All-statement_lines [] h = tt
  All-statement_lines (q ∷ qs) h = (
    IsLine-begin_line q.name h.0.0,
    (
      h.0.1.0,
      All-append IsLine q.more (end_marker ∷ (q.after ++ lines_of qs))
          (All-map (IsBody P m) IsLine (λ l k. k.0) q.more h.0.2)
          (
            ground arith,
            All-append IsLine q.after (lines_of qs)
                (All-map (IsNoise P m) IsLine (λ l k. k.0) q.after h.0.3)
                (All-statement_lines qs h.1),
          ),
    ),
  )

  -- A file of statements, each between its two markers, is read as the table of these statements in
  -- their order, and `query_fetch` gives the text of the first one with the name: its lines with a
  -- blank between two, tabs turned into blanks. No line holds a NUL or is longer than 1,022 bytes,
  -- a name has fewer than 256 bytes, a statement's lines are not empty and no end marker, and what
  -- stands between statements is no begin marker.
  pub query_init-fetch :
      (noise : List Bytes) (qs : List Statement) (n : Bytes)
      → All (IsNoise P m) noise
      → All (IsStatement P m) qs
      → (query_init P (some (file_of (noise ++ lines_of qs))) ≡ ok (map stored qs))
        × (query_fetch n (map stored qs) ≡ lookup n qs)
  unfolding query_init query_parse regex_compile is_empty fresh_reader
  query_init-fetch noise qs n h k =
      let lines =
        All-append IsLine noise (lines_of qs) (All-map (IsNoise P m) IsLine (λ l j. j.0) noise h)
          (All-statement_lines qs k) in
      let run =
        lines_read-All_noise noise (lines_of qs) none [] h ∙ lines_read-statements qs none [] k in
      (
        rw (m.begins_compile, m.ends_compile)
            (rw (fgets-file_of (noise ++ lines_of qs) lines) (rw run refl)),
        query_fetch-stored n qs,
      )
