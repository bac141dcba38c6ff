-- ===== src/Util/Fs/Expansion.antt =====
-- What `expand_user` makes of a path.
use Prim.Native.Char.{Char, code}
use Prim.Native.String
use nixsrv.Prelude.{
  ◌≡◌, refl, sym, ap, ◌∙◌, inl, inr, subst, ℕ, true, false, String, ◌==◌, some, eqb, ok, ◌>>=◌,
  Bool-cases, Option-cases, bind_returns, ok_injective, arith, if_both, str_ne,
}
use text.Mathlib.TextLemmas.{cons-append}
use nixsrv.Util.Text.{begins, ends, before, after}
use nixsrv.Util.System.{System}
use nixsrv.Util.Fs.{tilde, slash, directory, home_dir, dir_of, with_slash, substitute, expand_user}

module _ (S : System) where
  pub expand_user-plain : (path : String) → begins tilde path ≡ false → expand_user S path ≡ ok path
  unfolding expand_user
  expand_user-plain String.[] h = refl
  expand_user-plain (String.◌∷◌ c rest) h = rw h refl

  -- The homes of the users do not begin with `~`.
  pub record PlainHomes : Type 0 where
    pub home_plain : (exp : String) → S.home ≡ some exp → begins tilde exp ≡ false
    pub user_dir_plain : (exp : String) → S.user_dir ≡ some exp → begins tilde exp ≡ false
    pub user_dir_of_plain :
        (username exp : String) → S.user_dir_of username ≡ some exp → begins tilde exp ≡ false

  module _ (plain : PlainHomes) where
    home_dir-plain : (exp : String) → home_dir S ≡ ok exp → begins tilde exp ≡ false
    unfolding home_dir
    home_dir-plain exp e = elim (Option-cases S.home) [
      | inl absent ↦ absurd (ground (arith, absent, e))
      | inr (h, found) ↦ elim (Bool-cases (h == "")) [
        | inr full ↦
            let same : h ≡ exp = ok_injective (rw (found, full, home_dir) at e) in
            subst (λ x. begins tilde x ≡ false) same (plain.home_plain h found)
        | inl empty ↦ elim (Option-cases S.user_dir) [
          | inl nowhere ↦
              let same : h ≡ exp = ok_injective (rw (found, empty, nowhere, home_dir) at e) in
              subst (λ x. begins tilde x ≡ false) same (plain.home_plain h found)
          | inr (d, there) ↦
              let same : d ≡ exp = ok_injective (rw (found, empty, there, home_dir) at e) in
              subst (λ x. begins tilde x ≡ false) same (plain.user_dir_plain d there)
        ]
      ]
    ]

    dir_of-plain : (username : String) → begins tilde (dir_of S username) ≡ false
    unfolding dir_of
    dir_of-plain username = elim (Option-cases (S.user_dir_of username)) [
      | inl absent ↦ rw (dir_of, absent) refl
      | inr (exp, found) ↦ rw (dir_of, found) (plain.user_dir_of_plain username exp found)
    ]

    directory-plain :
        (username exp : String) → directory S username ≡ ok exp → begins tilde exp ≡ false
    unfolding directory
    directory-plain username exp e = elim (Bool-cases (username == "")) [
      | inl mine ↦ home_dir-plain exp (rw (mine, directory) at e)
      | inr other ↦
          let same : dir_of S username ≡ exp = ok_injective (rw (other, directory) at e) in
          subst (λ x. begins tilde x ≡ false) same (dir_of-plain username)
    ]

  begins-append :
      (k : ℕ) (dir rest : String)
      → (dir == "") ≡ false
      → begins k (String.◌++◌ dir rest) ≡ begins k dir
  begins-append k String.[] rest h = cc
  begins-append k (String.◌∷◌ c dir) rest h = rw (cons-append c dir rest) refl

  begins-with_slash :
      (k : ℕ) (dir : String) → (dir == "") ≡ false → begins k (with_slash S dir) ≡ begins k dir
  unfolding with_slash
  begins-with_slash k dir h =
      if_both (λ x. begins k x ≡ begins k dir) _ refl (begins-append k dir "/" h)

  with_slash-full : (dir : String) → (dir == "") ≡ false → (with_slash S dir == "") ≡ false
  unfolding with_slash
  with_slash-full String.[] h = cc
  with_slash-full (String.◌∷◌ c dir) h =
      if_both (λ x. (x == "") ≡ false) (ends slash (String.◌∷◌ c dir)) {x = String.◌∷◌ c dir}
        {y = String.◌++◌ (String.◌∷◌ c dir) "/"} h
        (rw (cons-append c dir "/") (str_ne (String.◌∷◌ c (String.◌++◌ dir "/")) "" (λ e. cc)))

  begins-substitute :
      (k : ℕ) (path dir : String)
      → (dir == "") ≡ false
      → begins k (substitute S path dir) ≡ begins k dir
  unfolding substitute
  begins-substitute k path dir h = elim (Option-cases (after slash path)) [
    | inl nowhere ↦ rw (substitute, h, nowhere) refl
    | inr (rest, found) ↦
        rw (substitute, h, found)
          (begins-append k (with_slash S dir) rest (with_slash-full dir h)
            ∙ begins-with_slash k dir h)
  ]

  expand_user-again :
      (path exp : String)
      → begins tilde path ≡ false
      → expand_user S path ≡ ok exp
      → expand_user S exp ≡ ok exp
  expand_user-again path exp h e =
      let same : path ≡ exp = ok_injective (sym (expand_user-plain path h) ∙ e) in
      subst (λ x. expand_user S x ≡ ok x) same (expand_user-plain path h)

  expand_user-tilde :
      (c : Char) (rest : String)
      → eqb (code c) tilde ≡ true
      → expand_user S (String.◌∷◌ c rest)
        ≡ (do dir ← directory S (before slash rest); ok (substitute S (String.◌∷◌ c rest) dir))
  unfolding expand_user
  expand_user-tilde c rest h = rw h refl

  substitute-empty : (path dir : String) → (dir == "") ≡ true → substitute S path dir ≡ path
  unfolding substitute
  substitute-empty path dir h = rw h refl

  -- Where the users' homes do not begin with `~`, expanding a path that was expanded changes nothing.
  pub expand_user_idem :
      (path exp : String) → PlainHomes → expand_user S path ≡ ok exp → expand_user S exp ≡ ok exp
  expand_user_idem String.[] exp plain e = expand_user-again String.[] exp refl e
  expand_user_idem (String.◌∷◌ c rest) exp plain e = elim (Bool-cases (eqb (code c) tilde)) [
    | inr other ↦ expand_user-again (String.◌∷◌ c rest) exp other e
    | inl here ↦
        let path = String.◌∷◌ c rest in
        let (dir, found, made) =
          bind_returns (directory S (before slash rest)) (λ d. ok (substitute S path d))
            (sym (expand_user-tilde c rest here) ∙ e) in
        elim (Bool-cases (dir == "")) [
          | inl empty ↦
              let same : path ≡ exp = sym (substitute-empty path dir empty) ∙ ok_injective made in
              subst (λ x. expand_user S x ≡ ok exp) same e
          | inr full ↦ expand_user-plain exp (
              ap (begins tilde) (sym (ok_injective made))
              ∙ begins-substitute tilde path dir full
              ∙ directory-plain plain (before slash rest) dir found)
        ]
  ]
