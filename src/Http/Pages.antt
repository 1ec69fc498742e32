-- ===== src/Http/Pages.antt =====
-- services/api/internal/adapters/inbound/http: health_handler.go and swagger_handler.go. Serving the
-- file and the pages of http-swagger are arguments. Lines of package log are not modelled.
mod Tests
use cloud_ops_manager.Common.{
  ℕ, String, ◌≡◌, refl, Bool, true, false, ◌&&◌, Option, some, none, List, [], ◌∷◌, ◌++◌, reverse,
  null, ◌==◌, if◌then◌else◌,
}
use cloud_ops_manager.Text.{Text, codes, text_eq}
use cloud_ops_manager.Http.Writer.{
  World, Handler, returned, raw, on_writer, write, write_header, set_header,
}

unfoldable pub health_check : {S : Type 0} → Handler S
health_check w = (returned, on_writer (λ v. write (raw (codes "OK")) (write_header 200 v)) w)

-- What stands behind a prefix (strings.HasPrefix and strings.TrimPrefix).
unfoldable pub behind : Text → Text → Option Text
behind [] s = some s
behind (d ∷ pre) [] = none
behind (d ∷ pre) (c ∷ s) = let rest = behind pre s in if d == c then rest else none

abbrev pub is_some : {A : Type 0} → Option A → Bool
is_some none = false
is_some (some a) = true

-- strings.HasSuffix
abbrev pub has_suffix : Text → Text → Bool
has_suffix s suffix = is_some (behind (reverse suffix) (reverse s))

abbrev pub slash_if_empty : Text → Text
slash_if_empty s = if null s then codes "/" else s

abbrev pub without_prefix : Text → Option Text → Text
without_prefix path none = path
without_prefix path (some rest) = slash_if_empty rest

-- The path that SwaggerUI looks at.
unfoldable pub swagger_path : Text → Text
unfolding behind
swagger_path path =
    let with_slash = if text_eq path (codes "/swagger") then codes "/swagger/" else path in
    let trimmed = without_prefix with_slash (behind (codes "/swagger") with_slash) in
    if text_eq trimmed (codes "/") then codes "/index.html" else trimmed

module _ {S : Type 0} (path_of : World S → Text) (serve_file : Handler S)
    (pages : Text → Handler S) where
  unfoldable pub serve_swagger_file : Handler S
  serve_swagger_file w = serve_file (on_writer (set_header "Content-Type" "application/yaml") w)

  -- The pages see the path in place of the request's own.
  unfoldable pub swagger_ui : Handler S
  unfolding swagger_path serve_swagger_file
  swagger_ui w =
      let path = swagger_path (path_of w) in
      if has_suffix path (codes "swagger.yaml") then serve_swagger_file w else pages path w
