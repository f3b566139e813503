-- ===== src/Api/Client.antt =====
-- internal/api/middleware/middleware.go: who a request comes from. Texts are lists of
-- code points, as they are read from the bytes; net.SplitHostPort is a parameter.
use lyrics_plus.Common.{Bool, ◌||◌, Option, none, some, [], ◌∷◌, ◌==◌, if◌then◌else◌}
use lyrics_plus.Common.Text.{Text, codes, text_eq, trim_space}
use lyrics_plus.Domain.Query.{is_empty}

-- The parts of a `*http.Request` that the middleware reads; `header` is `r.Header.Get`.
pub record Request : Type 0 where
  pub path : Text
  pub header : Text → Text
  pub remote_addr : Text

unfoldable pub is_health_path : Request → Bool
is_health_path r = text_eq r.path (codes "/health") || text_eq r.path (codes "/readyz")

-- `v[:idx]` at the first comma
unfoldable pub before_comma : Text → Text
before_comma [] = []
before_comma (c ∷ s) = if c == b',' then [] else c ∷ before_comma s

unfoldable pub first_comma_value : Text → Text
first_comma_value v = trim_space (before_comma v)

unfoldable pub remote_host : (Text → Option Text) → Text → Text
remote_host split_host_port addr = elim (split_host_port addr) [ none ↦ addr | some host ↦ host ]

unfoldable pub client_ip : (Text → Option Text) → Request → Text
client_ip split_host_port r =
    let cf = r.header (codes "CF-Connecting-IP") in
    let vercel = r.header (codes "X-Vercel-Forwarded-For") in
    let forwarded = r.header (codes "X-Forwarded-For") in
    let real = r.header (codes "X-Real-IP") in
    if is_empty cf
    then (if is_empty vercel
        then (if is_empty forwarded
            then (if is_empty real
                then remote_host split_host_port r.remote_addr
                else trim_space real)
            else first_comma_value forwarded)
        else first_comma_value vercel)
    else first_comma_value cf

-- `upper` is `strings.ToUpper`.
unfoldable pub client_country : (Text → Text) → Request → Text
client_country upper r =
    let cf = r.header (codes "CF-IPCountry") in
    let code = r.header (codes "X-Country-Code") in
    let geo = r.header (codes "X-GeoIP-Country-Code") in
    if is_empty cf
    then (if is_empty code
        then (if is_empty geo then [] else upper (trim_space geo))
        else upper (trim_space code))
    else upper (trim_space cf)
