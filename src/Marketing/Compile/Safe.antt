-- ===== src/Marketing/Compile/Safe.antt =====
-- The HTML of a campaign is made of a few templates, and what is put into them has no markup.
use crmtsi_app.Common.{
  ℕ, ◌≡◌, refl, subst, String, Bool, true, false, ◌||◌, Option, none, some, List, [], ◌∷◌, ◌++◌,
  Result, ok, err, str_eq, if_intro, ◌==◌, arith, Bool-cases, inl, inr, All, All-append, Text,
  codes, Result-cases,
}
use crmtsi_app.Marketing.Content.{
  Block, Profile, normalize_campaign_content, get_capability_profile,
}
use crmtsi_app.Marketing.Compile.{
  Variables, Url, Piece, html, no_html, unsafe_url, Compiled, escape_html, escape_char,
  substitute_variables, is_web, checked, safe_url, link, image, with_url, compile_block,
  compile_blocks, compile_campaign_content, add_piece, text_of,
}

-- The code units that end a text or a quoted value in HTML.
abbrev is_markup : ℕ → Bool
is_markup c = c == b'<' || c == b'>' || c == 34 || c == 39

abbrev pub IsPlain : Text → Type 0
IsPlain t = All (λ c. is_markup c ≡ false) t

escape_char-IsPlain : (c : ℕ) → IsPlain (escape_char c)
escape_char-IsPlain c = ground arith

escape_html-IsPlain : (t : Text) → IsPlain (escape_html t)
unfolding escape_html
escape_html-IsPlain [] = tt
escape_html-IsPlain (c ∷ t) =
    All-append (λ d. is_markup d ≡ false) (escape_char c) (escape_html t) (escape_char-IsPlain c)
      (escape_html-IsPlain t)

-- An escaped address of the web, without a user or a password.
pub data IsAddress (parse_url : Text → Option Url) : Text → Type 0 where
  address :
      {source : Text} {u : Url}
      → parse_url source ≡ some u
      → is_web u ≡ true
      → IsPlain (escape_html u.href)
      → IsAddress parse_url (escape_html u.href)

pub data IsHtml (parse_url : Text → Option Url) : Text → Type 0 where
  nothing : IsHtml parse_url []
  paragraph :
      (s : Text) {t : Text}
      → IsPlain s
      → IsHtml parse_url t
      → IsHtml parse_url ((codes "<p>" ++ (s ++ codes "</p>")) ++ t)
  heading :
      (s : Text) {t : Text}
      → IsPlain s
      → IsHtml parse_url t
      → IsHtml parse_url ((codes "<h2>" ++ (s ++ codes "</h2>")) ++ t)
  divider : {t : Text} → IsHtml parse_url t → IsHtml parse_url (codes "<hr>" ++ t)
  button :
      (l s : Text) {t : Text}
      → IsAddress parse_url l
      → IsPlain s
      → IsHtml parse_url t
      → IsHtml parse_url (
          (codes "<a href=\""
            ++ (l ++ (codes "\" rel=\"noopener noreferrer\">" ++ (s ++ codes "</a>"))))
          ++ t)
  picture :
      (l s : Text) {t : Text}
      → IsAddress parse_url l
      → IsPlain s
      → IsHtml parse_url t
      → IsHtml parse_url
          ((codes "<img src=\"" ++ (l ++ (codes "\" alt=\"" ++ (s ++ codes "\">")))) ++ t)

module _ (parse_url : Text → Option Url) where
  -- What a fragment leaves when it is put before safe HTML.
  abbrev Fits : Piece → Type 0
  Fits (html h) = (t : Text) → IsHtml parse_url t → IsHtml parse_url (h ++ t)
  Fits no_html = Unit
  Fits unsafe_url = Unit

  checked-IsAddress :
      (source : Text) (o : Option Url) (url : Text)
      → parse_url source ≡ o
      → checked o ≡ ok url
      → IsAddress parse_url (escape_html url)
  checked-IsAddress source none url e h = cc
  checked-IsAddress source (some u) url e h = elim (Bool-cases (is_web u)) [
    | inl web ↦
        let same : u.href ≡ url = ground (arith, h, web) in
        subst (λ l. IsAddress parse_url (escape_html l)) same
          (address e web (escape_html-IsPlain u.href))
    | inr other ↦ absurd (ground (arith, h, other))
  ]

  safe_url-IsAddress :
      (vs : Variables) (value : Option Text) (url : Text)
      → safe_url parse_url vs value ≡ ok url
      → IsAddress parse_url (escape_html url)
  unfolding safe_url
  safe_url-IsAddress vs value url h =
      checked-IsAddress (substitute_variables vs (text_of value))
        (parse_url (substitute_variables vs (text_of value))) url refl h

  with_url-Fits :
      (template : Text → Text → Text) (body : Text) (r : Result Text)
      → ((url : Text) → r ≡ ok url → Fits (html (template url body)))
      → Fits (with_url template body r)
  with_url-Fits template body (err e) k = tt
  with_url-Fits template body (ok url) k = k url refl

  compile_block-Fits :
      (profile : Profile) (vs : Variables) (b : Block) (body : Text)
      → Fits (compile_block parse_url profile vs b body)
  unfolding compile_block
  compile_block-Fits profile vs b body =
      let plain = escape_html-IsPlain body in
      if_intro Fits (str_eq b.kind "paragraph") _ _ (λ _ t h. paragraph (escape_html body) plain h)
        (λ _.
          if_intro Fits (str_eq b.kind "heading") _ _ (λ _ t h. heading (escape_html body) plain h)
            (λ _.
              if_intro Fits (str_eq b.kind "divider") _ _ (λ _ t h. divider h)
                (λ _.
                  if_intro Fits (str_eq b.kind "button") _ _
                    (λ _.
                      if_intro Fits profile.buttons _ _
                        (λ _. with_url-Fits link body (safe_url parse_url vs b.url) (λ url e t h.
                          button (escape_html url) (escape_html body)
                            (safe_url-IsAddress vs b.url url e) plain h))
                        (λ _. tt))
                    (λ _.
                      if_intro Fits (str_eq b.kind "image") _ _
                        (λ _.
                          if_intro Fits profile.images _ _
                            (λ _.
                              with_url-Fits image body (safe_url parse_url vs b.url) (λ url e t h.
                                picture (escape_html url) (escape_html body)
                                  (safe_url-IsAddress vs b.url url e) plain h))
                            (λ _. tt))
                        (λ _. tt)))))

  add_piece-IsHtml :
      (body : Text) (p : Piece) (rest : Compiled)
      → Fits p
      → IsHtml parse_url rest.html
      → IsHtml parse_url (add_piece body p rest).html
  add_piece-IsHtml body (html h) rest f k = f rest.html k
  add_piece-IsHtml body no_html rest f k = k
  add_piece-IsHtml body unsafe_url rest f k = k

  compile_blocks-IsHtml :
      (profile : Profile) (vs : Variables) (bs : List Block)
      → IsHtml parse_url (compile_blocks parse_url profile vs bs).html
  unfolding compile_blocks
  compile_blocks-IsHtml profile vs [] = nothing
  compile_blocks-IsHtml profile vs (b ∷ bs) =
      let body = substitute_variables vs b.text in
      add_piece-IsHtml body (compile_block parse_url profile vs b body)
        (compile_blocks parse_url profile vs bs) (compile_block-Fits profile vs b body)
        (compile_blocks-IsHtml profile vs bs)

  -- The HTML of any content, with any variables, is a sequence of the paragraph, heading, divider, link
  -- and image templates: the texts put into them have no angle bracket and no quote, and the addresses
  -- are escaped ones of the web schemes, without a user or a password.
  pub compile_campaign_content-IsHtml :
      (channel : String) (vs : Variables) (content : Option (List Block)) (c : Compiled)
      → compile_campaign_content parse_url channel vs content ≡ ok c
      → IsHtml parse_url c.html
  unfolding compile_campaign_content
  compile_campaign_content-IsHtml channel vs content c h =
      elim (Result-cases (normalize_campaign_content content)) [
        | inl (e, r) ↦ absurd (ground (arith, h, r))
        | inr (bs, r) ↦ elim (Result-cases (get_capability_profile channel)) [
          | inl (e, q) ↦ absurd (ground (arith, h, r, q))
          | inr (profile, q) ↦
              let same : compile_blocks parse_url profile vs bs ≡ c = ground (arith, h, r, q) in
              subst (λ x. IsHtml parse_url x.html) same (compile_blocks-IsHtml profile vs bs)
        ]
      ]
