-- ===== src/Trap/Parse/Tokens.antt =====
-- The words of a text, joined by blanks, are the tokens that `strtok_r` finds in it.
use nagios_snmp.Base.{
  ℕ, false, List, [], ◌∷◌, ◌++◌, some, Bytes, has, flush, tokens_from, tokens, All, All-append,
  All-map, append-cons-ne-nil, ◌≡◌, ◌≢◌, refl, ap, ◌∙◌, arith, append_assoc, append-nil,
}
use nagios_snmp.Util.{remove_chars}
use nagios_snmp.Util.Strings.{remove_chars_id}

abbrev pub line_ends : Bytes
line_ends = b'\n' ∷ b'\r' ∷ []

-- A word of the protocol: at least one byte, and no blank or line end.
abbrev pub IsWord : Bytes → Type 0
IsWord w = (w ≢ []) × All (λ c. has c (b' ' ∷ line_ends) ≡ false) w

abbrev pub unwords : List Bytes → Bytes
unwords [] = []
unwords (w ∷ []) = w
unwords (w ∷ v ∷ ws) = w ++ b' ' ∷ unwords (v ∷ ws)

tokens_from-word :
    (u w rest : Bytes)
    → All (λ c. has c (b' ' ∷ line_ends) ≡ false) w
    → tokens_from b' ' u (w ++ rest) ≡ tokens_from b' ' (u ++ w) rest
unfolding tokens_from
tokens_from-word u [] rest h = rw append-nil
tokens_from-word u (c ∷ w) rest h =
    ground (arith, tokens_from-word (u ++ c ∷ []) w rest h.1, append_assoc u (c ∷ []) w)

flush-word : (w : Bytes) → w ≢ [] → flush w ≡ w ∷ []
flush-word [] h = absurd (h refl)
flush-word (c ∷ w) h = refl

pub tokens-unwords : (ws : List Bytes) → All IsWord ws → tokens b' ' (unwords ws) ≡ ws
unfolding tokens
tokens-unwords [] h = unfold tokens_from in refl
tokens-unwords (w ∷ []) h =
    (rw append-nil at (tokens_from-word [] w [] h.0.1)) ∙ unfold tokens_from in flush-word w h.0.0
tokens-unwords (w ∷ v ∷ ws) h =
    tokens_from-word [] w (b' ' ∷ unwords (v ∷ ws)) h.0.1
    ∙ unfold tokens_from in
      (ap (λ u. u ++ tokens_from b' ' [] (unwords (v ∷ ws))) (flush-word w h.0.0)
        ∙ ap (◌∷◌ w) (tokens-unwords (v ∷ ws) h.1))

plain_byte : (c : ℕ) → has c (b' ' ∷ line_ends) ≡ false → has c line_ends ≡ false
plain_byte c h = ground arith

plain_word : (w : Bytes) → IsWord w → All (λ c. has c line_ends ≡ false) w
plain_word w h = All-map _ _ plain_byte w h.1

unwords_plain : (ws : List Bytes) → All IsWord ws → All (λ c. has c line_ends ≡ false) (unwords ws)
unwords_plain [] h = tt
unwords_plain (w ∷ []) h = plain_word w h.0
unwords_plain (w ∷ v ∷ ws) h =
    All-append _ w (b' ' ∷ unwords (v ∷ ws)) (plain_word w h.0) (refl, unwords_plain (v ∷ ws) h.1)

unwords-ne-nil : (w : Bytes) (ws : List Bytes) → w ≢ [] → unwords (w ∷ ws) ≢ []
unwords-ne-nil w [] h e = h e
unwords-ne-nil w (v ∷ ws) h e = append-cons-ne-nil w b' ' (unwords (v ∷ ws)) e

-- Such a text has no line end to lose.
pub remove_chars-unwords :
    (w : Bytes) (ws : List Bytes)
    → All IsWord (w ∷ ws)
    → remove_chars (some (unwords (w ∷ ws))) line_ends ≡ some (unwords (w ∷ ws))
remove_chars-unwords w ws h =
    remove_chars_id line_ends (unwords (w ∷ ws)) (unwords_plain (w ∷ ws) h)
      (unwords-ne-nil w ws h.0.0)
