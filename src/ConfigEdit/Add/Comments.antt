-- ===== src/ConfigEdit/Add/Comments.antt =====
-- The head of a new configuration file of src/config_edit.rs is made of comments, so that the text
-- written there is as valid as the document behind it.
use mathlib.Core.List.{append_assoc}
use rathole_x.Base.{
  ap, ℕ, ◌≡◌, refl, sym, ◌∙◌, Bool, true, false, not, ◌&&◌, ◌||◌, Option, none, some, [], ◌∷◌, ◌++◌,
  if◌then◌else◌, Text, nat_eq, leb, ◌==◌,
}
use rathole_x.Config
use rathole_x.Config.{validate, from_str}
use rathole_x.ConfigEdit.Toml.{Toml}
use rathole_x.ConfigEdit.Skeleton.{config_skeleton}
use rathole_x.ConfigEdit.Add.{text_of}

-- A character of a comment: no control character but the tab.
abbrev comment_char : ℕ → Bool
comment_char c = c == 9 || (leb 32 c && not (c == 127))

-- Whether the next character is inside a comment or at the start of a line; `none` behind anything else.
abbrev scan_char : Option Bool → ℕ → Option Bool
scan_char none c = none
scan_char (some false) c = if c == 10 then some false else if c == b'#' then some true else none
scan_char (some true) c = if c == 10 then some false else if comment_char c then some true else none

abbrev scan : Option Bool → Text → Option Bool
scan state [] = state
scan state (c ∷ s) = scan (scan_char state c) s

abbrev at_line : Option Bool → Bool
at_line none = false
at_line (some inside) = not inside

-- A text of whole lines, each of them empty or a comment of TOML.
abbrev pub is_comments : Text → Bool
is_comments s = at_line (scan (some false) s)

skeleton-is_comments : is_comments (config_skeleton ++ 10 ∷ []) ≡ true
unfolding config_skeleton
skeleton-is_comments = refl

-- TOML: comments and empty lines before a document do not change what it says.
abbrev pub IgnoresComments : (toml : Toml) → (Text → Option Config.Config) → Type 0
IgnoresComments toml parse_config =
    (lines : Text) (doc : toml.Table)
    → is_comments lines ≡ true
    → parse_config (lines ++ toml.print doc) ≡ parse_config (toml.print doc)

validate-same :
    (parse_config : Text → Option Config.Config) (s t : Text)
    → parse_config s ≡ parse_config t
    → validate parse_config s ≡ validate parse_config t
unfolding validate from_str
validate-same parse_config s t h = rw h refl

-- The text that is written is as valid as the document.
pub validate-text_of :
    (toml : Toml) (parse_config : Text → Option Config.Config) (created : Bool) (doc : toml.Table)
    → IgnoresComments toml parse_config
    → validate parse_config (text_of toml created doc) ≡ validate parse_config (toml.print doc)
validate-text_of toml parse_config false doc i = refl
validate-text_of toml parse_config true doc i =
    validate-same parse_config (text_of toml true doc) (toml.print doc) (
      ap parse_config (sym (append_assoc config_skeleton (10 ∷ []) (toml.print doc)))
      ∙ i (config_skeleton ++ 10 ∷ []) doc skeleton-is_comments)
