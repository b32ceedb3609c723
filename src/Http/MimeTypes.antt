-- ===== src/Http/MimeTypes.antt =====
-- `MimeTypes` of src/http/MimeTypes.cpp.
use Prim.Native.String.{String}
use workpane.Prelude.{ℕ, ◌+◌, ◌-◌, List, [], ◌∷◌, ◌==◌, between, if◌then◌else◌}
use workpane.Prelude.Bytes.{Bytes, codes, same}

abbrev types : List (String × String)
types =
    ("html", "text/html")
    ∷ ("htm", "text/html")
    ∷ ("css", "text/css")
    ∷ ("js", "text/javascript")
    ∷ ("mjs", "text/javascript")
    ∷ ("json", "application/json")
    ∷ ("map", "application/json")
    ∷ ("txt", "text/plain")
    ∷ ("md", "text/markdown")
    ∷ ("csv", "text/csv")
    ∷ ("xml", "application/xml")
    ∷ ("svg", "image/svg+xml")
    ∷ ("png", "image/png")
    ∷ ("jpg", "image/jpeg")
    ∷ ("jpeg", "image/jpeg")
    ∷ ("gif", "image/gif")
    ∷ ("webp", "image/webp")
    ∷ ("avif", "image/avif")
    ∷ ("bmp", "image/bmp")
    ∷ ("ico", "image/vnd.microsoft.icon")
    ∷ ("woff", "font/woff")
    ∷ ("woff2", "font/woff2")
    ∷ ("ttf", "font/ttf")
    ∷ ("otf", "font/otf")
    ∷ ("wasm", "application/wasm")
    ∷ ("pdf", "application/pdf")
    ∷ ("zip", "application/zip")
    ∷ ("mp3", "audio/mpeg")
    ∷ ("wav", "audio/wav")
    ∷ ("ogg", "audio/ogg")
    ∷ ("mp4", "video/mp4")
    ∷ ("webm", "video/webm")
    ∷ ("glb", "model/gltf-binary")
    ∷ ("gltf", "model/gltf+json")
    ∷ ("yaml", "application/yaml")
    ∷ ("yml", "application/yaml")
    ∷ []

-- `std::tolower` of the C locale.
abbrev lower_byte : ℕ → ℕ
lower_byte x = if between b'A' b'Z' x then x - b'A' + b'a' else x

abbrev lowered : Bytes → Bytes
lowered [] = []
lowered (x ∷ text) = lower_byte x ∷ lowered text

abbrev undotted : Bytes → Bytes
undotted [] = []
undotted (x ∷ text) = if x == b'.' then text else x ∷ text

abbrev type_of : Bytes → List (String × String) → String
type_of extension [] = "application/octet-stream"
type_of extension ((name, type) ∷ others) =
    let other = type_of extension others in if same (codes name) extension then type else other

unfoldable pub for_extension : Bytes → String
for_extension extension = type_of (lowered (undotted extension)) types
