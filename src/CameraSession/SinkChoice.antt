-- ===== src/CameraSession/SinkChoice.antt =====
-- Which sink a session makes: `parse_args` and the default in `start` (src/camera_session.cpp).
use twincam.Base.{
  ℕ, ◌≡◌, ◌≢◌, ◌⊎◌, inl, inr, Bool-cases, true, not, ◌&&◌, Option, none, some, arith, if◌then◌else◌,
  str_eq,
}
use text.Mathlib.TextEquality.{eq_iff}
use twincam.CameraSession.State.{Options, Build}

pub data SinkKind : Type 0 where
  sdl_sink kms_sink file_sink : SinkKind

-- The return code of `parse_args`, and the sink that it has made.
pub parse_args : Build → Options → ℕ × Option SinkKind
parse_args b opts =
    if b.have_sdl && opts.sdl
    then (1, some SinkKind.sdl_sink)
    else if b.have_drm && opts.drm
    then (2, some SinkKind.kms_sink)
    else if not (str_eq opts.filename "")
    then (3, some SinkKind.file_sink)
    else (0, none)

-- The best sink that the build has.
abbrev pub default_sink : Build → SinkKind
default_sink b =
    if b.have_sdl
    then SinkKind.sdl_sink
    else if b.have_drm
    then SinkKind.kms_sink
    else SinkKind.file_sink

abbrev or_default : Build → ℕ × Option SinkKind → SinkKind
or_default b (code, some kind) = kind
or_default b (code, none) = default_sink b

-- The sink of a session.
pub choose_sink : Build → Options → SinkKind
unfolding parse_args
choose_sink b opts = or_default b (parse_args b opts)

-- What the options ask for, in a build that has it; a file by its name.
abbrev pub Asks : Build → Options → SinkKind → Type 0
Asks b opts SinkKind.sdl_sink = (b.have_sdl ≡ true) × (opts.sdl ≡ true)
Asks b opts SinkKind.kms_sink = (b.have_drm ≡ true) × (opts.drm ≡ true)
Asks b opts SinkKind.file_sink = opts.filename ≢ ""

-- What a build has.
abbrev pub Has : Build → SinkKind → Type 0
Has b SinkKind.sdl_sink = b.have_sdl ≡ true
Has b SinkKind.kms_sink = b.have_drm ≡ true
Has b SinkKind.file_sink = Unit

-- The first kind with a property, where SDL comes before KMS and KMS before the file.
abbrev pub IsFirst : (SinkKind → Type 0) → SinkKind → Type 0
IsFirst P SinkKind.sdl_sink = P SinkKind.sdl_sink
IsFirst P SinkKind.kms_sink = P SinkKind.kms_sink × ¬ P SinkKind.sdl_sink
IsFirst P SinkKind.file_sink = P SinkKind.file_sink × ¬ P SinkKind.kms_sink × ¬ P SinkKind.sdl_sink

IsFirst-at : (P : SinkKind → Type 0) (k k' : SinkKind) → k' ≡ k → IsFirst P k → IsFirst P k'
IsFirst-at P k k' e h = rw e h

default-IsFirst : (b : Build) (k : SinkKind) → k ≡ default_sink b → IsFirst (Has b) k
default-IsFirst b k e = elim (Bool-cases b.have_sdl) [
  | inl sdl ↦ IsFirst-at (Has b) SinkKind.sdl_sink k (ground (arith, e, sdl)) sdl
  | inr no_sdl ↦ elim (Bool-cases b.have_drm) [
    | inl drm ↦
        IsFirst-at (Has b) SinkKind.kms_sink k (ground (arith, e, no_sdl, drm))
          (drm, λ sdl. ground (arith, no_sdl, sdl))
    | inr no_drm ↦
        IsFirst-at (Has b) SinkKind.file_sink k (ground (arith, e, no_sdl, no_drm))
          (tt, λ drm. ground (arith, no_drm, drm), λ sdl. ground (arith, no_sdl, sdl))
  ]
]

-- The sink is the first that the options ask for, in the order SDL, KMS, file; where they ask for none, it is
-- the first in that order that the build has, and every build has the file.
pub choose_sink_lem :
    (b : Build) (opts : Options)
    → IsFirst (Asks b opts) (choose_sink b opts)
      ⊎ (((k : SinkKind) → ¬ Asks b opts k) × IsFirst (Has b) (choose_sink b opts))
unfolding choose_sink parse_args
choose_sink_lem b opts =
    let named : str_eq opts.filename "" ≡ true → opts.filename ≡ "" = (eq_iff opts.filename "").0 in
    let unnamed : opts.filename ≡ "" → str_eq opts.filename "" ≡ true =
      (eq_iff opts.filename "").1 in
    elim (Bool-cases (b.have_sdl && opts.sdl)) [
      | inl sdl ↦ inl (
          IsFirst-at (Asks b opts) SinkKind.sdl_sink (choose_sink b opts) (ground (arith, sdl))
            (ground (arith, sdl)))
      | inr no_sdl ↦ elim (Bool-cases (b.have_drm && opts.drm)) [
        | inl drm ↦ inl (
            IsFirst-at (Asks b opts) SinkKind.kms_sink (choose_sink b opts)
              (ground (arith, no_sdl, drm))
              (ground (arith, drm), λ asks. ground (arith, no_sdl, asks)))
        | inr no_drm ↦ elim (Bool-cases (str_eq opts.filename "")) [
          | inr file ↦ inl (
              IsFirst-at (Asks b opts) SinkKind.file_sink (choose_sink b opts)
                (ground (arith, no_sdl, no_drm, file))
                (
                  λ empty. ground (arith, file, unnamed empty),
                  λ asks. ground (arith, no_drm, asks),
                  λ asks. ground (arith, no_sdl, asks),
                ))
          | inl no_file ↦ inr (
            λ k. elim k as (λ k. ¬ Asks b opts k) [
              | SinkKind.sdl_sink ↦ λ asks. ground (arith, no_sdl, asks)
              | SinkKind.kms_sink ↦ λ asks. ground (arith, no_drm, asks)
              | SinkKind.file_sink ↦ λ asks. asks (named no_file)
            ],
            default-IsFirst b (choose_sink b opts) (ground (arith, no_sdl, no_drm, no_file)),
          )
        ]
      ]
    ]
