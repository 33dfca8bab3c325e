-- ===== src/Api/Routes/Apart.antt =====
-- No request matches two routes of forge-api.
use mathlib.Core.List.{Memᴰ}
use mathlib.Core.List.Memᴰ
use mathlib.Core.Path.{subst}
use env_forge.Prelude.{
  ◌≡◌, refl, sym, ap, ◌∙◌, Bool, true, false, not, ◌&&◌, ◌||◌, inl, inr, List, [], ◌∷◌, Text, lit,
  text_eq, text_eq_iff, Option, none, some, map, arith,
}
use env_forge.Api.Routes.{Part, fixed, wildcard, Route, routes, Mux, Fits, Accepts, IsMux}

-- two patterns that some path might fit both
overlap : List Part → List Part → Bool
overlap [] [] = true
overlap (fixed s ∷ ps) (fixed u ∷ qs) = text_eq s u && overlap ps qs
overlap (fixed s ∷ ps) (wildcard ∷ qs) = overlap ps qs
overlap (wildcard ∷ ps) (q ∷ qs) = overlap ps qs
overlap _ _ = false

-- two methods that some method might satisfy both: both of them, or GET and HEAD
meet : Text → Text → Bool
meet m n = text_eq m n || text_eq m (lit "HEAD") || text_eq n (lit "HEAD")

conflict : Route → Route → Bool
unfolding overlap meet
conflict r q = meet r.method q.method && overlap r.parts q.parts

clear_of : Route → List Route → Bool
unfolding conflict
clear_of r [] = true
clear_of r (q ∷ qs) = not (conflict r q) && not (conflict q r) && clear_of r qs

apart : List Route → Bool
unfolding clear_of
apart [] = true
apart (r ∷ rs) = clear_of r rs && apart rs

routes-apart : apart routes ≡ true
unfolding apart routes text_eq lit
routes-apart = refl

Fits-overlap :
    (ps qs : List Part) (path : List Text) → Fits ps path → Fits qs path → overlap ps qs ≡ true
unfolding overlap
Fits-overlap [] [] [] f g = refl
Fits-overlap (fixed s ∷ ps) (fixed u ∷ qs) (x ∷ path) (e, f) (e', g) =
    rw ((text_eq_iff s u).1 (e ∙ sym e'), Fits-overlap ps qs path f g)
Fits-overlap (fixed s ∷ ps) (wildcard ∷ qs) (x ∷ path) (e, f) g = Fits-overlap ps qs path f g
Fits-overlap (wildcard ∷ ps) (fixed u ∷ qs) (x ∷ path) f (e, g) = Fits-overlap ps qs path f g
Fits-overlap (wildcard ∷ ps) (wildcard ∷ qs) (x ∷ path) f g = Fits-overlap ps qs path f g
Fits-overlap [] [] (x ∷ path) f g = elim f [ ]
Fits-overlap [] (fixed u ∷ qs) [] f g = elim g [ ]
Fits-overlap [] (fixed u ∷ qs) (x ∷ path) f g = elim f [ ]
Fits-overlap [] (wildcard ∷ qs) [] f g = elim g [ ]
Fits-overlap [] (wildcard ∷ qs) (x ∷ path) f g = elim f [ ]
Fits-overlap (fixed s ∷ ps) [] [] f g = elim f [ ]
Fits-overlap (fixed s ∷ ps) [] (x ∷ path) f g = elim g [ ]
Fits-overlap (fixed s ∷ ps) (fixed u ∷ qs) [] f g = elim f [ ]
Fits-overlap (fixed s ∷ ps) (wildcard ∷ qs) [] f g = elim f [ ]
Fits-overlap (wildcard ∷ ps) [] [] f g = elim f [ ]
Fits-overlap (wildcard ∷ ps) [] (x ∷ path) f g = elim g [ ]
Fits-overlap (wildcard ∷ ps) (fixed u ∷ qs) [] f g = elim f [ ]
Fits-overlap (wildcard ∷ ps) (wildcard ∷ qs) [] f g = elim f [ ]

equal-meet : (m n : Text) → m ≡ n → meet m n ≡ true
unfolding meet
equal-meet m n e = rw ((text_eq_iff m n).1 e)

Accepts-meet : (m n req : Text) → Accepts m req → Accepts n req → meet m n ≡ true
unfolding meet
Accepts-meet m n req (inl e) (inl e') = equal-meet m n (e ∙ sym e')
Accepts-meet m n req (inl e) (inr (g, h)) = ground (arith, (text_eq_iff m (lit "HEAD")).1 (e ∙ h))
Accepts-meet m n req (inr (g, h)) (inl e) = ground (arith, (text_eq_iff n (lit "HEAD")).1 (e ∙ h))
Accepts-meet m n req (inr (g, h)) (inr (g', h')) = equal-meet m n (g ∙ sym g')

clear-conflict :
    (r q : Route) (rs : List Route)
    → clear_of r rs ≡ true
    → Memᴰ q rs
    → (conflict r q ≡ false) × (conflict q r ≡ false)
unfolding clear_of
clear-conflict r q [] h m = absurd (Memᴰ.not-nil m)
clear-conflict r q (x ∷ rs) h (Memᴰ.head same) = rw same (ground (arith))
clear-conflict r q (x ∷ rs) h (Memᴰ.tail m) = clear-conflict r q rs (ground (arith)) m

apart-Mem :
    (rs : List Route) (r q : Route)
    → apart rs ≡ true
    → Memᴰ r rs
    → Memᴰ q rs
    → conflict r q ≡ true
    → r ≡ q
unfolding apart
apart-Mem [] r q h m n c = absurd (Memᴰ.not-nil m)
apart-Mem (x ∷ rs) r q h (Memᴰ.head e) (Memᴰ.head e') c = e ∙ sym e'
apart-Mem (x ∷ rs) r q h (Memᴰ.head e) (Memᴰ.tail n) c =
    let (clash, _) = clear-conflict x q rs (ground (arith)) n in
    absurd (cc (ap (λ z. conflict z q) e, clash, c))
apart-Mem (x ∷ rs) r q h (Memᴰ.tail m) (Memᴰ.head e') c =
    let (_, clash) = clear-conflict x r rs (ground (arith)) m in
    absurd (cc (ap (λ z. conflict r z) e', clash, c))
apart-Mem (x ∷ rs) r q h (Memᴰ.tail m) (Memᴰ.tail n) c = apart-Mem rs r q (ground (arith)) m n c

-- whether the first segment of a path is internal
abbrev pub is_internal : List Text → Bool
is_internal [] = false
is_internal (x ∷ path) = text_eq x (lit "internal")

-- the same of a pattern, if its first segment is a text
abbrev first_is_internal : List Part → Option Bool
first_is_internal (fixed s ∷ rest) = some (text_eq s (lit "internal"))
first_is_internal _ = none

Fits-is_internal :
    (parts : List Part) (path : List Text) (b : Bool)
    → Fits parts path
    → first_is_internal parts ≡ some b
    → b ≡ is_internal path
Fits-is_internal [] path b f h = cc
Fits-is_internal (wildcard ∷ rest) path b f h = cc
Fits-is_internal (fixed s ∷ rest) [] b f h = elim f [ ]
Fits-is_internal (fixed s ∷ rest) (x ∷ path) b (e, f) h =
    let said : text_eq s (lit "internal") ≡ b = cc in
    sym said ∙ ap (λ z. text_eq z (lit "internal")) e

abbrev IsMarked : List Route → Type 0
IsMarked rs = map (λ r. first_is_internal r.parts) rs ≡ map (λ r. some r.guarded) rs

IsMarked-Mem :
    (rs : List Route) (r : Route)
    → IsMarked rs
    → Memᴰ r rs
    → first_is_internal r.parts ≡ some r.guarded
IsMarked-Mem [] r h m = absurd (Memᴰ.not-nil m)
IsMarked-Mem (x ∷ rs) r h (Memᴰ.head e) =
    let here : first_is_internal x.parts ≡ some x.guarded = cc in
    subst (λ z. first_is_internal z.parts ≡ some z.guarded) (sym e) here
IsMarked-Mem (x ∷ rs) r h (Memᴰ.tail m) = IsMarked-Mem rs r (cc) m

routes-IsMarked : IsMarked routes
unfolding routes text_eq lit
routes-IsMarked = refl

-- No request matches two of the routes that New registers, so that the order in which they are
-- registered does not matter and none of them takes the place of another; and a request that
-- matches a route goes through authMiddleware exactly if the first segment of its path is internal.
pub matched-once :
    (mux : Mux) (m : Text) (path : List Text) (r q : Route)
    → IsMux mux
    → Memᴰ r routes
    → Memᴰ q routes
    → mux r m path ≡ true
    → mux q m path ≡ true
    → (r ≡ q) × (r.guarded ≡ is_internal path)
unfolding conflict
matched-once mux m path r q laws in_routes also_in_routes h k =
    let f = laws.path r m path h in
    (
      apart-Mem routes r q routes-apart in_routes also_in_routes (
          rw (Accepts-meet r.method q.method m (laws.method r m path h) (laws.method q m path k))
            (Fits-overlap r.parts q.parts path f (laws.path q m path k))),
      Fits-is_internal r.parts path r.guarded f (IsMarked-Mem routes r routes-IsMarked in_routes),
    )
