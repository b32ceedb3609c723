-- ===== src/Http/Resolver/Served.antt =====
-- What is served lies inside the document root.
use workpane.Prelude.{
  ℕ, ◌≤◌, ◌≡◌, ◌≢◌, ==_iff, ◌==◌, List, [], ◌∷◌, ◌++◌, append_assoc, ◌↔◌, inl, inr, refl, sym, ◌∙◌,
  ap, Bool, true, false, not, ◌||◌, Option, none, some, length, ltb, Bool-cases, arith, subst,
}
use workpane.Prelude.Bytes.{
  Bytes, codes, same, same-eq, same_refl, starts_with, holds_byte, last_or, starts_with-append,
  starts_with-rest,
}
use workpane.Result.{Error, Result, success, ◌>>=◌, ◌>>◌}
use Prim.Native.String.{String}
use workpane.Text.Utf8.{valid}
use workpane.Http.MimeTypes.{for_extension}
use workpane.Http.Resolver.{
  Files, ResolvedFile, maximum_target_length, maximum_file_size, decode, path_of, unrooted, invalid,
  missing, unless, present, refuses_target, refuses_text, closed, climbs, leaves, inside, page,
  refuses_file, resolve,
}
use workpane.Http.Resolver.Decoding.{Spells, decode_iff-Spells}

unless-success :
    {B : Type 0} (c : Bool) (e : Error) (k : Result B) {b : B}
    → (unless c e >> k) ≡ success b
    → (c ≡ false) × (k ≡ success b)
unless-success true e k h = absurd (cc h)
unless-success false e k h = (refl, h)

present-success :
    {A B : Type 0} (o : Option A) (e : Error) (k : A → Result B) {b : B}
    → (present o e >>= k) ≡ success b
    → (a : A) × (o ≡ some a) × (k a ≡ success b)
present-success none e k h = absurd (cc h)
present-success (some a) e k h = (a, refl, h)

passed : {B : Type 0} {c : Bool} (e : Error) {k : Result B} → c ≡ false → (unless c e >> k) ≡ k
passed e h = rw h refl

found :
    {A B : Type 0} {o : Option A} {a : A} (e : Error) (k : A → Result B)
    → o ≡ some a
    → (present o e >>= k) ≡ k a
found e k h = rw h refl

success_injective : {B : Type 0} {a b : B} → success a ≡ success b → a ≡ b
success_injective h = cc h

-- The text of a path at or below that of a folder: the folder's own, or it and a slash, which the folder's may
-- end in itself, and a rest.
pub data IsUnder (base : Bytes) : Bytes → Type 0 where
  same_text : IsUnder base base
  below : (rest : Bytes) → IsUnder base (base ++ b'/' ∷ rest)
  below_slash : (front rest : Bytes) → base ≡ front ++ b'/' ∷ [] → IsUnder base (base ++ rest)

last_or-append : (p : Bytes) (x d : ℕ) → last_or (p ++ x ∷ []) d ≡ x
last_or-append [] x d = refl
last_or-append (y ∷ p) x d = last_or-append p x y

last_or-front : (x : ℕ) (p : Bytes) → (front : Bytes) × (x ∷ p ≡ front ++ last_or p x ∷ [])
last_or-front x [] = ([], refl)
last_or-front x (y ∷ p) = let (front, e) = last_or-front y p in (x ∷ front, ap (λ zs. x ∷ zs) e)

closed-IsUnder : (base path : Bytes) → starts_with (closed base) path ≡ true → IsUnder base path
closed-IsUnder [] path h =
    let (rest, e) = starts_with-rest (b'/' ∷ []) path h in subst (IsUnder []) (sym e) (below rest)
closed-IsUnder (x ∷ base) path h = elim (Bool-cases (last_or base x == b'/')) [
  | inl l ↦
      let (rest, e) = starts_with-rest (x ∷ base) path (rw l at h) in
      let (front, g) = last_or-front x base in
      subst (IsUnder (x ∷ base)) (sym e) (
        below_slash front rest (g ∙ ap (λ z. front ++ z ∷ []) ((==_iff (last_or base x) b'/').0 l)))
  | inr l ↦
      let (rest, e) = starts_with-rest (x ∷ base ++ b'/' ∷ []) path (rw l at h) in
      subst (IsUnder (x ∷ base)) (sym (e ∙ append_assoc (x ∷ base) (b'/' ∷ []) rest)) (below rest)
]

IsUnder-closed :
    (base path : Bytes)
    → IsUnder base path
    → (same path base || starts_with (closed base) path) ≡ true
IsUnder-closed base path same_text = rw (same_refl base) refl
IsUnder-closed base path (below rest) = elim (Bool-cases (last_or base 0 == b'/')) [
  | inl l ↦ rw l (ground (arith, starts_with-append base (b'/' ∷ rest)))
  | inr l ↦ rw l (
      ground (
        arith,
        subst (λ z. starts_with (base ++ b'/' ∷ []) z ≡ true) (append_assoc base (b'/' ∷ []) rest)
            (starts_with-append (base ++ b'/' ∷ []) rest),
      ))
]
IsUnder-closed base path (below_slash front rest e) =
    let l : (last_or base 0 == b'/') ≡ true =
      (==_iff (last_or base 0) b'/').1 (ap (λ z. last_or z 0) e ∙ last_or-append front b'/' 0) in
    rw l (ground (arith, starts_with-append base rest))

climbs-false :
    (names : List Bytes) → ((rest : List Bytes) → names ≢ codes ".." ∷ rest) → climbs names ≡ false
climbs-false [] h = refl
climbs-false (name ∷ rest) h = elim (Bool-cases (same name (codes ".."))) [
  | inl e ↦ absurd (h rest (ap (λ z. z ∷ rest) (same-eq name (codes "..") e)))
  | inr e ↦ e
]

module _ {P : Type 0} (f : Files P) (root : P) (target : Bytes) where
  -- A path that leads down from where it is joined to: relative, and not beginning with "..".
  pub record Descends (path : P) : Type 0 where
    pub relative : f.is_absolute path ≡ false
    pub rootless : f.has_root_name path ≡ false
    pub forward : (rest : List Bytes) → f.components path ≢ codes ".." ∷ rest

  -- A folder stands for its page: index.html where that is a file, else index.htm.
  pub data IsPage : P → P → Type 0 where
    itself : {p : P} → f.is_directory p ≡ false → IsPage p p
    html :
        {p : P}
        → f.is_directory p ≡ true
        → f.is_regular_file (f.join p (f.named (codes "index.html"))) ≡ true
        → IsPage p (f.join p (f.named (codes "index.html")))
    htm :
        {p : P}
        → f.is_directory p ≡ true
        → f.is_regular_file (f.join p (f.named (codes "index.html"))) ≡ false
        → IsPage p (f.join p (f.named (codes "index.htm")))

  -- A file that may be served: the target is no longer than the bound, has no zero byte, begins with a slash and spells
  -- a text in UTF-8 without a zero byte or a backslash, the path of that text leaves nothing and leads to
  -- the file, and the file is a regular, readable one inside the root of at most 256 MiB.
  pub record IsServed (file : ResolvedFile P) : Type 0 where
    pub text : Bytes
    pub target_bounded : length target ≤ maximum_target_length
    pub target_plain : holds_byte 0 target ≡ false
    pub target_rooted : starts_with (codes "/") target ≡ true
    pub spelled : Spells (path_of target) text
    pub text_plain : (holds_byte 0 text ≡ false) × (holds_byte 92 text ≡ false)
    pub text_valid : valid text ≡ true
    pub stays : Descends (f.normal (unrooted text))
    pub asked : P
    pub paged : IsPage (f.join root (f.normal (unrooted text))) asked
    pub leads : f.canonical asked ≡ some file.path
    pub under : IsUnder (f.generic root) (f.generic file.path)
    pub regular : f.is_regular_file file.path ≡ true
    pub readable : f.can_read file.path ≡ true
    pub measured : f.file_size file.path ≡ some file.size
    pub bounded : file.size ≤ maximum_file_size
    pub typed : file.mime_type ≡ for_extension (f.extension file.path)

  inside-IsUnder :
      (path : P) → inside f root path ≡ true → IsUnder (f.generic root) (f.generic path)
  unfolding inside
  inside-IsUnder path h = elim (Bool-cases (same (f.generic path) (f.generic root))) [
    | inl e ↦
        subst (IsUnder (f.generic root)) (sym (same-eq (f.generic path) (f.generic root) e))
          same_text
    | inr e ↦ closed-IsUnder (f.generic root) (f.generic path) (rw e at h)
  ]

  IsUnder-inside :
      (path : P) → IsUnder (f.generic root) (f.generic path) → inside f root path ≡ true
  unfolding inside
  IsUnder-inside path u = ground (arith, IsUnder-closed (f.generic root) (f.generic path) u)

  leaves-Descends : (path : P) → leaves f path ≡ false → Descends path
  unfolding leaves
  leaves-Descends path h = record {
    relative = ground arith;
    rootless = ground arith;
    forward =
        λ rest e. let c : climbs (f.components path) ≡ true = ap climbs e in ground (arith, c);
  }

  Descends-leaves : (path : P) → Descends path → leaves f path ≡ false
  unfolding leaves
  Descends-leaves path d =
      let c = climbs-false (f.components path) d.forward in rw (d.relative, d.rootless, c) refl

  page-IsPage : (path : P) → IsPage path (page f path)
  unfolding page
  page-IsPage path = elim (Bool-cases (f.is_directory path)) [
    | inr e ↦ rw e (itself e)
    | inl e ↦ elim (Bool-cases (f.is_regular_file (f.join path (f.named (codes "index.html"))))) [
      | inl g ↦ rw (e, g) (html e g)
      | inr g ↦ rw (e, g) (htm e g)
    ]
  ]

  IsPage-page : {path asked : P} → IsPage path asked → page f path ≡ asked
  unfolding page
  IsPage-page (itself e) = rw e refl
  IsPage-page (html e g) = rw (e, g) refl
  IsPage-page (htm e g) = rw (e, g) refl

  served :
      (text : Bytes) (path : P) (size : ℕ)
      → refuses_target target ≡ false
      → decode (path_of target) ≡ some text
      → refuses_text text ≡ false
      → leaves f (f.normal (unrooted text)) ≡ false
      → f.canonical (page f (f.join root (f.normal (unrooted text)))) ≡ some path
      → refuses_file f root path ≡ false
      → f.file_size path ≡ some size
      → (ltb maximum_file_size size || not (f.can_read path)) ≡ false
      → IsServed (record { path = path; size = size; mime_type = for_extension (f.extension path) })
  served text path size a b c d e g i j = record {
    text = text;
    target_bounded = ground (arith, a);
    target_plain = ground (arith, a);
    target_rooted = ground (arith, a);
    spelled = (decode_iff-Spells (path_of target) text).0 b;
    text_plain = (ground (arith, c), ground (arith, c));
    text_valid = ground (arith, c);
    stays = leaves-Descends (f.normal (unrooted text)) d;
    asked = page f (f.join root (f.normal (unrooted text)));
    paged = page-IsPage (f.join root (f.normal (unrooted text)));
    leads = e;
    under = inside-IsUnder path (ground (arith, g));
    regular = ground (arith, g);
    readable = ground (arith, j);
    measured = i;
    bounded = ground (arith, j);
    typed = refl;
  }

  resolve-IsServed : (file : ResolvedFile P) → resolve f root target ≡ success file → IsServed file
  unfolding resolve
  resolve-IsServed file h =
      let (a, h₁) = unless-success (refuses_target target) (invalid target) _ h in
      let (text, b, h₂) = present-success (decode (path_of target)) (invalid target) _ h₁ in
      let (c, h₃) = unless-success (refuses_text text) (invalid target) _ h₂ in
      let (d, h₄) = unless-success (leaves f (f.normal (unrooted text))) (invalid target) _ h₃ in
      let (path, e, h₅) =
        present-success (f.canonical (page f (f.join root (f.normal (unrooted text)))))
          (missing target) _ h₄ in
      let (g, h₆) = unless-success (refuses_file f root path) (missing target) _ h₅ in
      let (size, i, h₇) = present-success (f.file_size path) (missing target) _ h₆ in
      let (j, h₈) =
        unless-success (ltb maximum_file_size size || not (f.can_read path)) (missing target) _
          h₇ in
      subst IsServed (success_injective h₈) (served text path size a b c d e g i j)

  IsServed-resolve : (file : ResolvedFile P) → IsServed file → resolve f root target ≡ success file
  unfolding resolve
  IsServed-resolve file s =
      let a : refuses_target target ≡ false =
        ground (arith, s.target_bounded, s.target_plain, s.target_rooted) in
      let b = (decode_iff-Spells (path_of target) s.text).1 s.spelled in
      let c : refuses_text s.text ≡ false =
        ground (arith, s.text_plain.0, s.text_plain.1, s.text_valid) in
      let g : refuses_file f root file.path ≡ false =
        ground (arith, IsUnder-inside file.path s.under, s.regular) in
      let j : (ltb maximum_file_size file.size || not (f.can_read file.path)) ≡ false =
        ground (arith, s.bounded, s.readable) in
      passed (invalid target) a
      ∙ found (invalid target) _ b
      ∙ passed (invalid target) c
      ∙ passed (invalid target) (Descends-leaves (f.normal (unrooted s.text)) s.stays)
      ∙ found (missing target) _ (ap f.canonical (IsPage-page s.paged) ∙ s.leads)
      ∙ passed (missing target) g
      ∙ found (missing target) _ s.measured
      ∙ passed (missing target) j
      ∙ ap (λ (m : String). success (record { path = file.path; size = file.size; mime_type = m }))
          (sym s.typed)

  -- A request is resolved to a file exactly when the file may be served.
  pub resolve_iff-IsServed :
      (file : ResolvedFile P) → (resolve f root target ≡ success file) ↔ IsServed file
  resolve_iff-IsServed file = (resolve-IsServed file, IsServed-resolve file)
