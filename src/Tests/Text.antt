-- ===== src/Tests/Text.antt =====
-- The string functions, the stack and the macros at concrete inputs.
use nagios_snmp.Base.{
  ℕ, true, false, [], ◌∷◌, ◌++◌, none, some, Bytes, CString, codes, ok, ◌≡◌, refl, arith,
}
use nagios_snmp.Util.{remove_quotes, quote, backslash_quote, extract_filename}
use nagios_snmp.Util.Shell.{read_word, closed, shell_view, quote-read_word, quote_breaks_out}
use nagios_snmp.Util.{quote_from, backslash_from}
use nagios_snmp.Stack.{Stack}
use nagios_snmp.Stack.Order.{push_all, pop_all, pop_all-push_all}
use nagios_snmp.Command.{expand_command_internal}
use nagios_snmp.Command.Expansion.{head_piece, tail_pieces, expansion, expand-expansion}

quote_runs :
    quote (backslash_quote (remove_quotes (some (codes "\"down: $(x)\""))))
    ≡ codes "\"down: \\$(x)\""
unfolding quote backslash_quote remove_quotes
quote_runs = refl

filename_runs : extract_filename (some (codes "/bin/check -a")) ≡ some (codes "/bin/check")
unfolding extract_filename
filename_runs = refl

quote-read_word_example :
    (t : Bytes) × (quote (backslash_quote (some (codes "it's $5"))) ≡ b'"' ∷ t)
    × (read_word false (t ++ codes " x") ≡ closed (shell_view true (codes "it's $5")) (codes " x"))
quote-read_word_example = quote-read_word (codes "it's $5") (codes " x") refl

quote_breaks_out_example :
    (t : Bytes) × (quote (backslash_quote (some (codes "a\";reboot"))) ≡ b'"' ∷ t)
    × (read_word false (t ++ [])
        ≡ closed
            (shell_view true (codes "a") ++ b'\\' ∷ [])
            (quote_from (backslash_from false (codes ";reboot")) ++ []))
quote_breaks_out_example = quote_breaks_out (codes "a") (codes ";reboot") [] refl

abbrev no_items : Stack ℕ
no_items = record { top = []; depth = 0; executions = 3 }

pop_all-push_all_example : pop_all 2 (push_all no_items (7 ∷ 8 ∷ [])) ≡ ok (8 ∷ 7 ∷ [], no_items)
pop_all-push_all_example = pop_all-push_all (7 ∷ 8 ∷ []) no_items refl

abbrev no_value : Bytes → CString
no_value m = none

expand-expansion_example :
    expand_command_internal (λ m. ok (no_value m)) (some (codes "a $B$ c$"))
    ≡ ok (some (expansion no_value (codes "a $B$ c$")))
unfolding head_piece tail_pieces
expand-expansion_example =
    expand-expansion no_value (codes "a $B$ c$") (omega arith) (omega arith, tt)
