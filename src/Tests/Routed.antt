-- ===== src/Tests/Routed.antt =====
-- The theorem on forge-api's routes, at a concrete input.
use mathlib.Core.List.{Memᴰ}
use env_forge.Prelude.{
  ◌≡◌, refl, Bool, true, false, ◌&&◌, ◌||◌, List, [], ◌∷◌, Text, lit, text_eq, text_eq_iff, arith,
}
use env_forge.Api.Routes.{
  Part, fixed, wildcard, Route, internal_put, routes, Mux, Fits, Accepts, IsMux,
}
use env_forge.Api.Routes.Apart.{is_internal, matched-once}

-- a multiplexer that compares segment by segment
fits : List Part → List Text → Bool
fits [] [] = true
fits (fixed s ∷ parts) (x ∷ path) = text_eq s x && fits parts path
fits (wildcard ∷ parts) (x ∷ path) = fits parts path
fits _ _ = false

accepts : Text → Text → Bool
accepts method m = text_eq method m || (text_eq method (lit "GET") && text_eq m (lit "HEAD"))

unfoldable segments : Mux
unfolding fits accepts
segments r m path = accepts r.method m && fits r.parts path

fits-Fits : (parts : List Part) (path : List Text) → fits parts path ≡ true → Fits parts path
unfolding fits
fits-Fits [] [] h = tt
fits-Fits [] (x ∷ path) h = cc
fits-Fits (fixed s ∷ parts) [] h = cc
fits-Fits (fixed s ∷ parts) (x ∷ path) h =
    ((text_eq_iff s x).0 (ground arith), fits-Fits parts path (ground arith))
fits-Fits (wildcard ∷ parts) [] h = cc
fits-Fits (wildcard ∷ parts) (x ∷ path) h = fits-Fits parts path h

accepts-Accepts : (method m : Text) → accepts method m ≡ true → Accepts method m
unfolding accepts
accepts-Accepts method m h =
    ground (arith, text_eq_iff method m, text_eq_iff method (lit "GET"), text_eq_iff m (lit "HEAD"))

segments-IsMux : IsMux segments
unfolding segments
segments-IsMux = record {
  method = λ r m path h. accepts-Accepts r.method m (ground arith);
  path = λ r m path h. fits-Fits r.parts path (ground arith);
}

abbrev put_route : Route
put_route = record {
  method = lit "PUT";
  parts = fixed (lit "internal") ∷ fixed (lit "envs") ∷ wildcard ∷ [];
  guarded = true;
  target = internal_put;
}

abbrev put_path : List Text
put_path = lit "internal" ∷ lit "envs" ∷ lit "0a1b2c3d-77" ∷ []

is_route : Memᴰ put_route routes
unfolding routes
is_route =
    Memᴰ.tail
      (Memᴰ.tail (Memᴰ.tail (Memᴰ.tail (Memᴰ.tail (Memᴰ.tail (Memᴰ.tail (Memᴰ.head refl)))))))

matches : segments put_route (lit "PUT") put_path ≡ true
unfolding segments lit text_eq
matches = refl

matched-once_example : (put_route ≡ put_route) × (put_route.guarded ≡ is_internal put_path)
matched-once_example =
    matched-once segments (lit "PUT") put_path put_route put_route segments-IsMux is_route is_route
      matches matches
