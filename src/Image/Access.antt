-- ===== src/Image/Access.antt =====
-- Access to a plane of an image (src/image.cpp, Image::data).
use twincam.Base.{
  ℕ, ◌<◌, ◌≡◌, ◌⊎◌, inl, inr, some, get_elem?, length, arith, compare_cases, get_elem?-lt,
  get_elem?-ge,
}
use twincam.Image.{Image, Span, span, assertion_failed, out_of_bounds, num_planes, plane_data}

-- A plane that the image has is given; the number one past the last plane passes the assertion and
-- reads past the end; any larger number fails the assertion.
pub plane_data-cases :
    (im : Image) (plane : ℕ)
    → ((plane < num_planes im)
        × ((s : Span) × (get_elem? im.planes plane ≡ some s) × (plane_data im plane ≡ span s)))
      ⊎ ((plane ≡ num_planes im) × (plane_data im plane ≡ out_of_bounds))
      ⊎ ((num_planes im < plane) × (plane_data im plane ≡ assertion_failed))
unfolding plane_data num_planes
plane_data-cases im plane = elim (compare_cases plane (length im.planes)) [
  | inl small ↦ let (s, e) = get_elem?-lt im.planes plane small in inl (small, (s, e, ground arith))
  | inr (inl same) ↦ inr (inl (same, ground (arith, get_elem?-ge im.planes plane (omega arith))))
  | inr (inr large) ↦ inr (inr (large, ground arith))
]
