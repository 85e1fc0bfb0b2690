-- ===== src/GoldenSuite/Dir/Reading.antt =====
-- What `decodeFile` returns, and the world that it leaves.
use truthmetal.Base.{
  subst, ap, ◌∙◌, true, nat_eq, ℕ, String, ◌≡◌, refl, inl, inr, List, ok, arith, Option-cases,
}
use truthmetal.GoldenSuite.Dir.{FileSystem, Decoder, decode_file}
use truthmetal.GoldenSuite.Dir.Spec.{Reads, behind}

module _ {W : Type 0} (fs : FileSystem W) where
  decode_file_sound :
      {A : Type 0} (json : Decoder A) (path : String) (w : W) {content : List ℕ} {value : A}
      → (decode_file fs json path w).0 ≡ ok (content, value)
      → Reads fs json path w content value
  unfolding decode_file
  decode_file_sound json path w h =
      let w₁ = (fs.lstat path w).1 in
      let w₂ = (fs.open_file path w₁).1 in
      elim (Option-cases (fs.lstat path w).0) [
        | inl e ↦ absurd (ground arith)
        | inr (info, inspected) ↦ elim (Option-cases (fs.open_file path w₁).0) [
          | inl e ↦ absurd (ground arith)
          | inr (file, opens) ↦ elim (Option-cases (fs.stat file w₂).0) [
            | inl e ↦ absurd (ground arith)
            | inr (opened, again) ↦ elim (Option-cases (fs.read_all file (fs.stat file w₂).1).0) [
              | inl e ↦ absurd (ground arith)
              | inr (bytes, read) ↦ elim (Option-cases (json.decode bytes)) [
                | inl e ↦ absurd (ground arith)
                | inr ((parsed, rest), decodes) ↦ record {
                  info = info;
                  file = file;
                  opened = opened;
                  rest = rest;
                  inspected = inspected;
                  regular = ground arith;
                  opens = opens;
                  inspected_again = again;
                  still_regular = ground arith;
                  same = ground arith;
                  read = ground arith;
                  decodes = ground arith;
                  ends = ground arith;
                }
              ]
            ]
          ]
        ]
      ]

  pub decode_file_complete :
      {A : Type 0} (json : Decoder A) (path : String) (w : W) {content : List ℕ} {value : A}
      → (r : Reads fs json path w content value)
      → decode_file fs json path w ≡ (ok (content, value), behind fs path r.file w)
  unfolding decode_file
  decode_file_complete json path w r =
      let same : nat_eq r.info.identity r.opened.identity ≡ true = ground (arith, r.same) in
      rw
        (
          r.inspected, r.regular, r.opens, r.inspected_again, r.still_regular, same, r.read,
          r.decodes, r.ends,
        )
        refl

  -- The file of a pinned name.
  pub named :
      {A : Type 0} (json : Decoder A) (directory : String) (w : W) {name pinned : String}
      {content : List ℕ} {value : A}
      → name ≡ pinned
      → (r : Reads fs json (fs.join directory pinned) w content value)
      → decode_file fs json (fs.join directory name) w
        ≡ (ok (content, value), behind fs (fs.join directory pinned) r.file w)
  named json directory w e r =
      ap (λ n. decode_file fs json (fs.join directory n) w) e
      ∙ decode_file_complete json (fs.join directory _) w r

  -- A file that was decoded was read, and in which world it leaves.
  pub decoded :
      {A : Type 0} (json : Decoder A) (directory : String) (w : W) {name pinned : String}
      {content : List ℕ} {value : A}
      → name ≡ pinned
      → (decode_file fs json (fs.join directory name) w).0 ≡ ok (content, value)
      → (r : Reads fs json (fs.join directory pinned) w content value) × ((decode_file fs json
            (fs.join directory name)
            w).1
          ≡ behind fs (fs.join directory pinned) r.file w)
  decoded json directory w {name} {pinned} {content} {value} e h =
      let h' =
        subst (λ n. (decode_file fs json (fs.join directory n) w).0 ≡ ok (content, value)) e h in
      let r = decode_file_sound json (fs.join directory pinned) w h' in
      (
        r,
        ap (λ n. (decode_file fs json (fs.join directory n) w).1) e
            ∙ ap (λ x. x.1) (decode_file_complete json (fs.join directory pinned) w r),
      )
