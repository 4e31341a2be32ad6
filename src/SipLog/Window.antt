-- ===== src/SipLog/Window.antt =====
-- What `get_entries` of src/sip_logger.py gives back after a row of writes.
use mathlib.Core.List.{append-nil, append_assoc}
use pjsua_mcp.Prelude.{
  ℕ, zero, suc, ◌+◌, ◌-◌, ◌≤◌, ◌≡◌, refl, sym, ◌∙◌, ap, Option, none, some, List, [], ◌∷◌, ◌++◌,
  map, arith, length, drop, last_n, push, length-last_n, length-push, length-append, length-drop,
}
use pjsua_mcp.Text.{Text}
use pjsua_mcp.Text.Integer.{pos}
use pjsua_mcp.SipLog.{LogEntry, SipLogWriter, stripped, write, clear, with_text, get_entries}

-- A row of writes.
abbrev pub write_all : List LogEntry → SipLogWriter → SipLogWriter
write_all [] w = w
write_all (e ∷ es) w = write_all es (write e w)

module _ {ℓ} {A : Type ℓ} where
  drop_cong : (xs : List A) {m n : ℕ} → m ≡ n → drop m xs ≡ drop n xs
  drop_cong xs e = ap (λ k. drop k xs) e

  drop_nil : (n : ℕ) → drop {A = A} n [] ≡ []
  drop_nil zero = refl
  drop_nil (suc n) = refl

  drop-drop : (m n : ℕ) (xs : List A) → drop m (drop n xs) ≡ drop (n + m) xs
  drop-drop m zero xs = drop_cong xs (omega arith)
  drop-drop m (suc n) [] = drop_nil m ∙ sym (drop_nil (suc n + m))
  drop-drop m (suc n) (x ∷ xs) =
      drop-drop m n xs ∙ drop_cong (x ∷ xs) {m = suc (n + m)} (omega arith)

  drop-front : (n : ℕ) (xs ys : List A) → n ≤ length xs → drop n (xs ++ ys) ≡ drop n xs ++ ys
  drop-front zero xs ys h = refl
  drop-front (suc n) [] ys h = ground arith
  drop-front (suc n) (x ∷ xs) ys h = drop-front n xs ys (omega arith)

  -- Cutting before an append loses nothing that a later cut keeps.
  last_n-append : (n : ℕ) (xs ys : List A) → last_n n (last_n n xs ++ ys) ≡ last_n n (xs ++ ys)
  last_n-append n xs ys =
      let a = length xs - n in
      ap (last_n n) (sym (drop-front a xs ys (omega arith)))
      ∙ drop-drop (length (drop a (xs ++ ys)) - n) a (xs ++ ys)
      ∙ drop_cong (xs ++ ys) (omega (arith, length-drop a (xs ++ ys), length-append xs ys))

  last_n-all : (n : ℕ) (xs : List A) → length xs ≤ n → last_n n xs ≡ xs
  last_n-all n xs h = drop_cong xs {n = 0} (omega arith)

length-entries : (e : LogEntry) (w : SipLogWriter) → length (write e w).entries ≤ w.max_entries
unfolding write
length-entries e w = length-push w.max_entries w.entries (stripped e)

write_all-entries :
    (es : List LogEntry) (w : SipLogWriter)
    → length w.entries ≤ w.max_entries
    → (write_all es w).entries ≡ last_n w.max_entries (w.entries ++ map stripped es)
unfolding write push
write_all-entries [] w h =
    sym (ap (last_n w.max_entries) (append-nil w.entries) ∙ last_n-all w.max_entries w.entries h)
write_all-entries (e ∷ es) w h =
    let n = w.max_entries in
    let e' = stripped e in
    write_all-entries es (write e w) (length-entries e w)
    ∙ last_n-append n (w.entries ++ e' ∷ []) (map stripped es)
    ∙ ap (last_n n) (append_assoc w.entries (e' ∷ []) (map stripped es))

entries-clear :
    (es : List LogEntry) (w : SipLogWriter)
    → (write_all es (clear w)).entries ≡ last_n w.max_entries (map stripped es)
unfolding clear
entries-clear es w = write_all-entries es (clear w) (omega arith)

-- After the log is cleared and any row of messages is written to it, it holds the last of them, at
-- most as many as its bound, each without its line ends at the end; of those `get_entries` gives the
-- ones with the text, and the last n of these where n is positive, but all of them where n is 0.
pub get_entries_lem :
    (n : ℕ) (filter_text : Option Text) (es : List LogEntry) (w : SipLogWriter)
    → let w' = write_all es (clear w) in
      let found = with_text filter_text (last_n w.max_entries (map stripped es)) in
      (length w'.entries ≤ w.max_entries)
      × (get_entries none filter_text w' ≡ found)
      × (get_entries (some (pos (suc n))) filter_text w' ≡ last_n (suc n) found)
      × (get_entries (some (pos 0)) filter_text w' ≡ found)
unfolding get_entries
get_entries_lem n filter_text es w =
    let e = entries-clear es w in
    (
      rw e (length-last_n w.max_entries (map stripped es)),
      ap (with_text filter_text) e,
      ap (λ found. last_n (suc n) (with_text filter_text found)) e,
      ap (with_text filter_text) e,
    )
