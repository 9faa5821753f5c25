-- ===== src/Rules/Cleaning.antt =====
-- edge/src/rules.ts, cleanText: control and bidi characters out, trimmed, capped by code points.
pub mod Laws
use focustown_public.Prelude.{
  ℕ, Bool, true, false, not, ◌||◌, ◌&&◌, List, [], ◌∷◌, leb, eqb, if◌then◌else◌, select, take, Text,
  Json,
}
use focustown_public.Prelude.{str}

abbrev pub nickname_max : ℕ
nickname_max = 12

abbrev pub message_max : ℕ
message_max = 500

abbrev pub report_note_max : ℕ
report_note_max = 500

-- CONTROL: U+0000-0008, U+000B-001F, U+007F, U+200B-200F, U+202A-202E, U+2066-2069.
unfoldable pub is_control : ℕ → Bool
is_control c =
    leb c 8
    || (leb 11 c && leb c 31)
    || eqb c 127
    || (leb 8203 c && leb c 8207)
    || (leb 8234 c && leb c 8238)
    || (leb 8294 c && leb c 8297)

-- White space of `String.prototype.trim` (ECMA-262: WhiteSpace and LineTerminator).
unfoldable pub is_space : ℕ → Bool
is_space c =
    (leb 9 c && leb c 13)
    || eqb c 32
    || eqb c 160
    || eqb c 5760
    || (leb 8192 c && leb c 8202)
    || eqb c 8232
    || eqb c 8233
    || eqb c 8239
    || eqb c 8287
    || eqb c 12288
    || eqb c 65279

trim_start : Text → Text
trim_start [] = []
trim_start (c ∷ s) = if is_space c then trim_start s else c ∷ s

-- A character before the trimmed rest: dropped if it is white space and nothing is left.
keep_before : ℕ → Text → Text
keep_before c [] = if is_space c then [] else c ∷ []
keep_before c (d ∷ s) = c ∷ d ∷ s

trim_end : Text → Text
unfolding keep_before
trim_end [] = []
trim_end (c ∷ s) = keep_before c (trim_end s)

unfoldable pub trim : Text → Text
unfolding trim_start trim_end is_space
trim s = trim_end (trim_start s)

-- `replace(/\r\n?/g, "\n")`: a carriage return, with the line feed behind it if there is one.
-- After a `\r` has been replaced (first argument), a line feed is swallowed.
line_feeds_from : Bool → Text → Text
line_feeds_from after [] = []
line_feeds_from after (c ∷ s) =
    let swallowed = line_feeds_from false s in
    let replaced = 10 ∷ line_feeds_from true s in
    let kept = c ∷ line_feeds_from false s in
    if after && eqb c 10 then swallowed else if eqb c 13 then replaced else kept

unfoldable pub line_feeds : Text → Text
unfolding line_feeds_from
line_feeds s = line_feeds_from false s

pub strip_control : Text → Text
unfolding is_control
strip_control s = select (λ c. not (is_control c)) s

-- The body of cleanText for a string.
unfoldable pub clean : Text → ℕ → Text
unfolding strip_control line_feeds trim
clean s limit = trim (take limit (trim (line_feeds (strip_control s))))

unfoldable pub clean_text : Json → ℕ → Text
unfolding clean
clean_text (str s) limit = clean s limit
clean_text _ limit = []
