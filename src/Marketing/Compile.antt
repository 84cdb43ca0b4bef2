-- ===== src/Marketing/Compile.antt =====
-- modules/marketing/content-compiler.js: the HTML and the text of a campaign.
mod Examples
pub mod Safe
use crmtsi_app.Common.{
  ℕ, zero, suc, String, Bool, true, false, not, ◌&&◌, ◌||◌, Option, none, some, List, [], ◌∷◌, ◌++◌,
  Result, ok, err, ◌>>◌, ◌>>=◌, require, str_eq, if◌then◌else◌, ◌==◌, Text, codes, text_eq,
}
use crmtsi_app.Marketing.Content.{
  Block, Profile, variable_at, tail_length, normalize_campaign_content, get_capability_profile,
}

abbrev escape_char : ℕ → Text
escape_char c =
    if c == b'&'
    then codes "&amp;"
    else if c == b'<'
    then codes "&lt;"
    else if c == b'>'
    then codes "&gt;"
    else if c == 34
    then codes "&quot;"
    else if c == 39
    then codes "&#39;"
    else c ∷ []

pub escape_html : Text → Text
escape_html [] = []
escape_html (c ∷ t) = escape_char c ++ escape_html t

abbrev Variables : Type 0
Variables = List (Text × Text)

abbrev value_of : Variables → Text → Text
value_of [] key = []
value_of ((name, v) ∷ vs) key = if text_eq name key then v else value_of vs key

pub substitute_from : Variables → (skip : ℕ) → Text → Text
substitute_from vs skip [] = []
substitute_from vs (suc skip) (c ∷ t) = substitute_from vs skip t
substitute_from vs zero (c ∷ t) = elim (variable_at (c ∷ t)) [
  | none ↦ c ∷ substitute_from vs zero t
  | some key ↦ value_of vs key ++ substitute_from vs (tail_length key) t
]

pub substitute_variables : Variables → Text → Text
unfolding substitute_from
substitute_variables vs t = substitute_from vs 0 t

-- What is read of a `URL`, with its text.
pub record Url : Type 0 where
  pub protocol : Text
  pub has_credentials : Bool
  pub href : Text

pub data Piece : Type 0 where
  html : Text → Piece
  no_html : Piece
  unsafe_url : Piece

abbrev text_of : Option Text → Text
text_of none = []
text_of (some t) = t

pub record Compiled : Type 0 where
  pub html : Text
  pub text : List Text

abbrev pub is_web : Url → Bool
is_web u =
    (text_eq u.protocol (codes "https:") || text_eq u.protocol (codes "http:"))
    && not u.has_credentials

abbrev checked : Option Url → Result Text
checked none = err "CONTENT_URL_UNSAFE"
checked (some u) = if is_web u then ok u.href else err "CONTENT_URL_UNSAFE"

abbrev link : Text → Text → Text
link url body =
    codes "<a href=\""
    ++ (escape_html url
        ++ (codes "\" rel=\"noopener noreferrer\">" ++ (escape_html body ++ codes "</a>")))

abbrev image : Text → Text → Text
image url body =
    codes "<img src=\""
    ++ (escape_html url ++ (codes "\" alt=\"" ++ (escape_html body ++ codes "\">")))

abbrev with_url : (Text → Text → Text) → Text → Result Text → Piece
with_url template body (err e) = unsafe_url
with_url template body (ok url) = html (template url body)

abbrev add_piece : Text → Piece → Compiled → Compiled
add_piece body (html h) rest = record { html = h ++ rest.html; text = body ∷ rest.text }
add_piece body no_html rest = record rest { text = body ∷ rest.text }
add_piece body unsafe_url rest = record rest {
  text = body ∷ codes "[unsafe URL removed]" ∷ rest.text;
}

-- `parse_url` is the constructor `URL` (`none` where it throws).
module _ (parse_url : Text → Option Url) where
  pub safe_url : Variables → Option Text → Result Text
  unfolding substitute_variables
  safe_url vs value = checked (parse_url (substitute_variables vs (text_of value)))

  -- The fragment of a block, whose body is its text with the variables put in.
  pub compile_block : Profile → Variables → Block → Text → Piece
  unfolding escape_html safe_url
  compile_block profile vs b body =
      if str_eq b.kind "paragraph"
      then html (codes "<p>" ++ (escape_html body ++ codes "</p>"))
      else if str_eq b.kind "heading"
      then html (codes "<h2>" ++ (escape_html body ++ codes "</h2>"))
      else if str_eq b.kind "divider"
      then html (codes "<hr>")
      else if str_eq b.kind "button"
      then if profile.buttons then with_url link body (safe_url vs b.url) else no_html
      else if str_eq b.kind "image"
      then if profile.images then with_url image body (safe_url vs b.url) else no_html
      else no_html

  pub compile_blocks : Profile → Variables → List Block → Compiled
  unfolding compile_block substitute_variables
  compile_blocks profile vs [] = record { html = []; text = [] }
  compile_blocks profile vs (b ∷ bs) =
      let body = substitute_variables vs b.text in
      add_piece body (compile_block profile vs b body) (compile_blocks profile vs bs)

  -- The lines of the text are not yet joined.
  pub compile_campaign_content :
      (channel : String) → Variables → Option (List Block) → Result Compiled
  unfolding compile_blocks
  compile_campaign_content channel vs content = do
    bs ← normalize_campaign_content content
    profile ← get_capability_profile channel
    ok (compile_blocks profile vs bs)
