-- ===== src/Nfs/Listing.antt =====
-- The text that `exportfs -v` prints, and its reading by parseExports of
-- agent/storage/nfs/kernel.go.
use mathlib.Core.List.{append_assoc}
use btrfs_nfs_csi.Base.{
  ℕ, ◌≡◌, refl, ap, ◌∙◌, sym, ◌≢◌, append-nil, Bool, true, false, ◌||◌, ◌==◌, List, [], ◌∷◌, ◌++◌,
  Bytes, codes, eq_ne, cut-append, cut-none, Lacks, All, IsWord, fields, fields-append, fields-word,
  split, split-append, has_prefix, contains, is_space, Bool-cases, if◌then◌else◌, arith, map, inl,
  inr,
}
use btrfs_nfs_csi.Nfs.{ExportInfo}
use btrfs_nfs_csi.Nfs.Kernel.{
  exportfs_client, unwrap_brackets, unbracketed, client_of, indented, parse_fields, parse_lines,
  parse_exports,
}

-- One entry as the tool prints it: whether path and client stand on one line, the blanks in front of
-- the client, and the options. The tool pads a short path with spaces and a tab, and puts the client
-- of a long one on a line of its own.
pub record Listed : Type 0 where
  pub one_line : Bool
  pub gap : Bytes
  pub info : ExportInfo
  pub options : Bytes

abbrev pub client_text : Listed → Bytes
client_text e = exportfs_client e.info.client ++ b'(' ∷ (e.options ++ b')' ∷ [])

abbrev pub print_entry : Listed → Bytes → Bytes
print_entry e rest =
    if e.one_line
    then e.info.path ++ (e.gap ++ (client_text e ++ b'\n' ∷ rest))
    else e.info.path ++ b'\n' ∷ (e.gap ++ (client_text e ++ b'\n' ∷ rest))

abbrev pub print_listing : List Listed → Bytes
print_listing [] = []
print_listing (e ∷ entries) = print_entry e (print_listing entries)

-- An absolute path without spaces.
abbrev pub IsPath : Bytes → Type 0
IsPath p = ((q : Bytes) × (p ≡ b'/' ∷ q)) × IsWord p

-- An address, whose text holds no space, no bracket that closes, no parenthesis and no slash.
pub record IsClient (c : Bytes) : Type 0 where
  pub filled : c ≢ []
  pub word : IsWord c
  pub no_bracket : Lacks b']' c
  pub no_parenthesis : Lacks b'(' c
  pub no_slash : Lacks b'/' c

abbrev pub is_blank : ℕ → Bool
is_blank c = c == b' ' || c == b'\t'

-- Spaces and tabs, at least one.
pub record IsGap (g : Bytes) : Type 0 where
  pub some_blank : g ≢ []
  pub all_blank : All (λ c. is_blank c ≡ true) g

abbrev pub IsListed : Listed → Type 0
IsListed e = IsPath e.info.path × IsClient e.info.client × IsWord e.options × IsGap e.gap

pub All-append : (P : ℕ → Type 0) (a b : Bytes) → All P a → All P b → All P (a ++ b)
All-append P [] b ha hb = hb
All-append P (c ∷ a) b ha hb = (ha.0, All-append P a b ha.1 hb)

Lacks-newline : (w : Bytes) → IsWord w → Lacks b'\n' w
Lacks-newline [] h = tt
Lacks-newline (c ∷ w) h = ((λ e. absurd (ground (arith, h.0, e))), Lacks-newline w h.1)

-- The brackets that exportfs needs around an IPv6 address are taken off again.
pub unwrap_brackets-exportfs_client :
    (c : Bytes) → Lacks b']' c → unwrap_brackets (exportfs_client c) ≡ c
unfolding unwrap_brackets exportfs_client unbracketed
unwrap_brackets-exportfs_client c h = elim (Bool-cases (contains c (codes ":"))) [
  | inl e ↦
      rw (e, unwrap_brackets, cut-append b']' (b'[' ∷ c) [] ((λ p. absurd (ground arith)), h)) refl
  | inr e ↦
      let same : exportfs_client c ≡ c = rw e refl in
      rw (same, unwrap_brackets, cut-none b']' c h) same
]

pub exportfs_client-All :
    (P : ℕ → Type 0) (c : Bytes) → All P c → P b'[' → P b']' → All P (exportfs_client c)
unfolding exportfs_client
exportfs_client-All P c h l r = elim (Bool-cases (contains c (codes ":"))) [
  | inl e ↦ rw e (l, All-append P c (b']' ∷ []) h (r, tt))
  | inr e ↦ rw e h
]

client_of-client_text : (e : Listed) → IsListed e → client_of (client_text e) ≡ e.info.client
unfolding client_of
client_of-client_text e h =
    let c = e.info.client in
    let bare =
      exportfs_client-All (λ d. d ≢ b'(') c h.1.no_parenthesis (λ p. absurd (ground (arith, p)))
        (λ p. absurd (ground (arith, p))) in
    rw (client_of, cut-append b'(' (exportfs_client c) (e.options ++ b')' ∷ []) bare)
      (unwrap_brackets-exportfs_client c h.1.no_bracket)

client_text-IsWord : (e : Listed) → IsListed e → IsWord (client_text e)
client_text-IsWord e h =
    All-append (λ d. is_space d ≡ false) (exportfs_client e.info.client)
      (b'(' ∷ (e.options ++ b')' ∷ []))
      (exportfs_client-All (λ d. is_space d ≡ false) e.info.client h.1.word refl refl)
      (refl, All-append (λ d. is_space d ≡ false) e.options (b')' ∷ []) h.2 (refl, tt))

-- What stands in front of a word is not indented.
IsWord-indented : (w s : Bytes) → IsWord w → w ≢ [] → indented (w ++ s) ≡ false
unfolding indented has_prefix
IsWord-indented [] s h filled = absurd (filled refl)
IsWord-indented (c ∷ w) s h filled = ground (arith, h.0)

append-filled : (a : Bytes) (d : ℕ) (b : Bytes) → a ++ d ∷ b ≢ []
append-filled [] d b p = absurd (cc)
append-filled (c ∷ a) d b p = absurd (cc)

path-filled : (path : Bytes) → IsPath path → path ≢ []
path-filled path p e = absurd (ground (arith, e, p.0.1))

path-not_indented : (path : Bytes) → IsPath path → indented path ≡ false
path-not_indented path p =
    rw (sym (append-nil path)) (IsWord-indented path [] p.1 (path-filled path p))

fields-blanks : (g w : Bytes) → All (λ c. is_blank c ≡ true) g → fields (g ++ w) ≡ fields w
unfolding fields
fields-blanks [] w h = refl
fields-blanks (c ∷ g) w h =
    let gap : is_space c ≡ true = ground (arith, h.0) in rw gap (fields-blanks g w h.1)

fields_pair :
    (path g w : Bytes)
    → IsWord path
    → path ≢ []
    → IsGap g
    → IsWord w
    → w ≢ []
    → fields (path ++ (g ++ w)) ≡ path ∷ w ∷ []
fields_pair path [] w p named gap word filled = absurd (gap.some_blank refl)
fields_pair path (d ∷ g) w p named gap word filled =
    let space : is_space d ≡ true = ground (arith, gap.all_blank.0) in
    fields-append path d (g ++ w) p named space
    ∙ ap (λ ws. path ∷ ws) (fields-blanks g w gap.all_blank.1 ∙ fields-word w word filled)

blanks-Lacks : (g : Bytes) → All (λ c. is_blank c ≡ true) g → Lacks b'\n' g
blanks-Lacks [] h = tt
blanks-Lacks (c ∷ g) h = ((λ e. absurd (ground (arith, h.0, e))), blanks-Lacks g h.1)

gap-indented : (g w : Bytes) → IsGap g → indented (g ++ w) ≡ true
unfolding indented has_prefix
gap-indented [] w gap = absurd (gap.some_blank refl)
gap-indented (c ∷ g) w gap = ground (arith, gap.all_blank.0)

-- A gap and a word hold no line break.
gap_word-Lacks : (g w : Bytes) → IsGap g → IsWord w → Lacks b'\n' (g ++ w)
gap_word-Lacks g w gap word =
    All-append (λ c. c ≢ b'\n') g w (blanks-Lacks g gap.all_blank) (Lacks-newline w word)

-- A line with a path and a word behind it is an entry.
parse_lines-pair :
    (path g w current rest : Bytes)
    → IsPath path
    → IsGap g
    → IsWord w
    → w ≢ []
    → parse_lines current (split b'\n' (path ++ (g ++ (w ++ b'\n' ∷ rest))))
      ≡ record { path = path; client = client_of w } ∷ parse_lines [] (split b'\n' rest)
unfolding parse_lines parse_fields
parse_lines-pair path g w current rest p gap word filled =
    let line = path ++ (g ++ w) in
    let whole : path ++ (g ++ (w ++ b'\n' ∷ rest)) ≡ line ++ b'\n' ∷ rest =
      ap (λ s. path ++ s) (sym (append_assoc g w (b'\n' ∷ rest)))
      ∙ sym (append_assoc path (g ++ w) (b'\n' ∷ rest)) in
    let one : Lacks b'\n' line =
      All-append (λ c. c ≢ b'\n') path (g ++ w) (Lacks-newline path p.1)
        (gap_word-Lacks g w gap word) in
    let words : fields line ≡ path ∷ w ∷ [] =
      fields_pair path g w p.1 (path-filled path p) gap word filled in
    rw whole (
      rw
        (
          split-append b'\n' line rest one,
          words,
          IsWord-indented path (g ++ w) p.1 (path-filled path p),
        )
        refl)

-- A line that holds a path alone, with an indented word on the next line, is an entry too.
parse_lines-wrapped :
    (path g w current rest : Bytes)
    → IsPath path
    → IsGap g
    → IsWord w
    → w ≢ []
    → parse_lines current (split b'\n' (path ++ b'\n' ∷ (g ++ (w ++ b'\n' ∷ rest))))
      ≡ record { path = path; client = client_of w } ∷ parse_lines [] (split b'\n' rest)
unfolding parse_lines parse_fields
parse_lines-wrapped path g w current rest p gap word filled =
    let line = g ++ w in
    let whole : g ++ (w ++ b'\n' ∷ rest) ≡ line ++ b'\n' ∷ rest =
      sym (append_assoc g w (b'\n' ∷ rest)) in
    let words : fields line ≡ w ∷ [] =
      fields-blanks g w gap.all_blank ∙ fields-word w word filled in
    rw whole (
      rw
        (
          split-append b'\n' path (line ++ b'\n' ∷ rest) (Lacks-newline path p.1),
          fields-word path p.1 (path-filled path p),
          path-not_indented path p,
          split-append b'\n' line rest (gap_word-Lacks g w gap word),
          words,
          gap-indented g w gap,
          eq_ne path [] (path-filled path p),
        )
        refl)

parse_lines-entry :
    (e : Listed) (rest : Bytes)
    → IsListed e
    → parse_lines [] (split b'\n' (print_entry e rest)) ≡ e.info ∷ parse_lines [] (split b'\n' rest)
parse_lines-entry e rest h =
    let word = client_text-IsWord e h in
    let gap = h.3 in
    let filled = append-filled (exportfs_client e.info.client) b'(' (e.options ++ b')' ∷ []) in
    let read =
      ap (λ c. record { path = e.info.path; client = c } ∷ parse_lines [] (split b'\n' rest))
        (client_of-client_text e h) in
    elim (Bool-cases e.one_line) [
      | inl one ↦
          rw one
            (parse_lines-pair e.info.path e.gap (client_text e) [] rest h.0 gap word filled ∙ read)
      | inr two ↦
          rw two (
            parse_lines-wrapped e.info.path e.gap (client_text e) [] rest h.0 gap word filled
            ∙ read)
    ]

-- What the tool lists is read back: each entry, in order, whatever spaces and tabs stand between the
-- path and the client, on one line or on two. The texts are absolute paths and addresses.
pub parse_exports-print_listing :
    (entries : List Listed)
    → All IsListed entries
    → parse_exports (print_listing entries) ≡ map (λ e. e.info) entries
unfolding parse_exports fields
parse_exports-print_listing [] h = refl
parse_exports-print_listing (e ∷ entries) h =
    parse_lines-entry e (print_listing entries) h.0
    ∙ ap (λ l. e.info ∷ l) (parse_exports-print_listing entries h.1)
