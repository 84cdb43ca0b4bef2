-- ===== src/Marketing/Content.antt =====
-- modules/marketing/content-schema.js and channel-capabilities.js: the blocks that a campaign may have,
-- and what a channel can show.
mod Examples
use crmtsi_app.Common.{
  ℕ, zero, suc, ◌+◌, ◌-◌, String, Bool, true, false, not, ◌&&◌, ◌||◌, Option, none, some, List, [],
  ◌∷◌, ◌++◌, Result, ok, err, ◌>>◌, ◌>>=◌, require, str_eq, has, if◌then◌else◌, ltb, leb, ◌==◌,
  length, every, any_of, keep, Text, codes, text_eq,
}

-- A block as it comes; absent texts are empty, and so are absent marks.
pub record Block : Type 0 where
  pub kind : String
  pub text : Text
  pub marks : List String
  pub url : Option Text

abbrev block_types : List String
block_types = "paragraph" ∷ "heading" ∷ "button" ∷ "image" ∷ "divider" ∷ []

abbrev mark_types : List String
mark_types = "bold" ∷ "italic" ∷ "code" ∷ []

abbrev variables : List Text
variables =
    codes "contact.name" ∷ codes "contact.id" ∷ codes "contact.phone" ∷ codes "company.name" ∷ []

abbrev max_blocks : ℕ
max_blocks = 100

abbrev max_text_length : ℕ
max_text_length = 4000

-- The run of letters at the start, and the rest.
unfoldable pub letters : Text → Text × Text
letters [] = ([], [])
letters (c ∷ t) =
    let (run, rest) = letters t in if leb b'a' c && leb c b'z' then (c ∷ run, rest) else ([], c ∷ t)

abbrev ends_braces : Text → Bool
ends_braces (c ∷ d ∷ t) = c == b'}' && d == b'}'
ends_braces _ = false

abbrev key_of : Text → Text → Option Text
key_of first second =
    if leb 1 (length first) && leb 1 (length second) then some (first ++ b'.' ∷ second) else none

abbrev after_dot : Text → Text → Option Text
after_dot first (c ∷ t) =
    let (second, rest) = letters t in
    if c == b'.' && ends_braces rest then key_of first second else none
after_dot first [] = none

-- The key of the variable that starts here: `\{\{([a-z]+\.[a-z]+)\}\}`.
unfoldable pub variable_at : Text → Option Text
unfolding letters
variable_at (c ∷ d ∷ t) =
    let (first, rest) = letters t in if c == b'{' && d == b'{' then after_dot first rest else none
variable_at _ = none

-- The code units of a variable after its first.
abbrev pub tail_length : Text → ℕ
tail_length key = length key + 3

-- The scan for variables; `skip` units belong to the variable before.
unfoldable pub variables_from : (skip : ℕ) → Text → List Text
unfolding variable_at
variables_from skip [] = []
variables_from (suc skip) (c ∷ t) = variables_from skip t
variables_from zero (c ∷ t) = elim (variable_at (c ∷ t)) [
  | none ↦ variables_from zero t
  | some key ↦ key ∷ variables_from (tail_length key) t
]

unfoldable pub variables_in : Text → List Text
unfolding variables_from
variables_in t = variables_from 0 t

-- Marks without repetition, in the order of their texts.
abbrev sorted_marks : List String → List String
sorted_marks marks = keep (has marks) ("bold" ∷ "code" ∷ "italic" ∷ [])

unfoldable pub normalize_block : Block → Result Block
unfolding variables_in
normalize_block b = do
  require (has block_types b.kind) "CONTENT_BLOCK_UNSUPPORTED"
  require (not (ltb max_text_length (length b.text))) "CONTENT_TEXT_TOO_LONG"
  require (every (has mark_types) b.marks) "CONTENT_MARK_UNSUPPORTED"
  require (every (λ v. any_of (text_eq v) variables) (variables_in b.text))
      "CONTENT_VARIABLE_UNSUPPORTED"
  ok (record b { marks = sorted_marks b.marks })

unfoldable pub normalize_all : List Block → Result (List Block)
unfolding normalize_block
normalize_all [] = ok []
normalize_all (b ∷ bs) = do n ← normalize_block b; ns ← normalize_all bs; ok (n ∷ ns)

-- `none` is content without a list of blocks.
unfoldable pub normalize_campaign_content : Option (List Block) → Result (List Block)
unfolding normalize_all
normalize_campaign_content none = err "CONTENT_BLOCKS_INVALID"
normalize_campaign_content (some bs) = do
  require (not (ltb max_blocks (length bs))) "CONTENT_BLOCKS_TOO_MANY"
  normalize_all bs

pub record Profile : Type 0 where
  pub channel : String
  pub version : ℕ
  pub buttons : Bool
  pub images : Bool

-- `channel` is in lower case; of the features, those that the compiler asks for.
unfoldable pub get_capability_profile : String → Result Profile
get_capability_profile channel =
    if str_eq channel "waha" || str_eq channel "meta"
    then ok (record { channel = channel; version = 1; buttons = true; images = true })
    else err "CHANNEL_NOT_SUPPORTED"
