-- ===== src/App/SingleInstance.antt =====
-- app/SingleInstance.cpp: the named mutex by which one instance of the program runs for each user.
-- The token of the process and the kernel's mutexes are parameters.
use steam_sales_tray.Shared.{
  ℕ, suc, ◌≤◌, ◌≡◌, refl, sym, ap, ◌∙◌, inl, inr, Bool, true, not, ◌&&◌, Option, none, some, List,
  [], ◌∷◌, ◌++◌, ◌==◌, if◌then◌else◌, arith, Bool-cases,
}
use steam_sales_tray.Shared.Bytes.{Wide, codes, bytes_eq, bytes_eq_iff}

pub record Token : Type 0 where
  -- OpenProcessToken succeeds
  pub opens : Bool
  -- GetTokenInformation: the size it asks for, and whether it then gives the user
  pub size : ℕ
  pub has_user : Bool
  -- ConvertSidToStringSidW
  pub sid_string : Option Wide

unfoldable pub get_current_user_token : Token → Wide
get_current_user_token t =
    let fallback = codes "default" in
    if not t.opens
    then fallback
    else if t.size == 0
    then fallback
    else if t.has_user
    then elim t.sid_string [ none ↦ fallback | some sid ↦ sid ]
    else fallback

-- CreateMutexW in a process of a session, which gives a name of Local\ its namespace: whether it gives
-- a mutex, and whether the mutex existed before.
pub record Mutexes : Type 1 where
  pub Kernel : Type 0
  pub create_mutex : ℕ → Wide → Kernel → Bool × Bool × Kernel

pub record Guard : Type 0 where
  pub has_mutex : Bool
  pub is_primary : Bool
  pub user_token : Wide

module _ (m : Mutexes) where
  unfoldable pub single_instance : ℕ → Token → m.Kernel → Guard × m.Kernel
  unfolding get_current_user_token
  single_instance session token k =
      let user = get_current_user_token token in
      let (made, existed, k') = m.create_mutex session (codes "Local\\SteamSalesTray-" ++ user) k in
      (record { has_mutex = made; is_primary = made && not existed; user_token = user }, k')

-- What the code relies on of mutexes named in the namespace of a session: CreateMutexW tells whether
-- the name existed there, and a mutex exists while a process that made or opened it runs.
pub record MutexLaws (m : Mutexes) : Type 0 where
  pub exists : ℕ → Wide → m.Kernel → Bool
  pub tells :
      (session : ℕ) (name : Wide) (k : m.Kernel)
      → (m.create_mutex session name k).1 ≡ exists session name k
  pub makes :
      (session : ℕ) (name : Wide) (k : m.Kernel)
      → (m.create_mutex session name k).0 ≡ true
      → exists session name (m.create_mutex session name k).2 ≡ true
  pub keeps :
      (session : ℕ) (name : Wide) (elsewhere : ℕ) (other : Wide) (k : m.Kernel)
      → exists session name k ≡ true
      → exists session name (m.create_mutex elsewhere other k).2 ≡ true

-- A process that starts the program: its session, and what its token gives.
pub record Process : Type 0 where
  pub session : ℕ
  pub token : Token

module _ (m : Mutexes) where
  -- the program started again and again, each time in a process of its own, while none ends
  unfoldable pub start_all : List Process → m.Kernel → List (ℕ × Guard)
  unfolding single_instance
  start_all [] k = []
  start_all (p ∷ ps) k =
      let (guard, k') = single_instance m p.session p.token k in
      (p.session, guard) ∷ start_all ps k'

  -- the instances of a session with a user token that take themselves for the first
  abbrev pub primaries : ℕ → Wide → List (ℕ × Guard) → ℕ
  primaries session user [] = 0
  primaries session user ((n, g) ∷ gs) =
      let rest = primaries session user gs in
      if g.is_primary && (n == session && bytes_eq g.user_token user) then suc rest else rest

  abbrev mutex_name : Wide → Wide
  mutex_name user = codes "Local\\SteamSalesTray-" ++ user

  module _ (laws : MutexLaws m) where
    -- the mutex of a process of the session with the token
    same_mutex :
        (session : ℕ) (user : Wide) (p : Process) (k : m.Kernel)
        → (p.session == session && bytes_eq (get_current_user_token p.token) user) ≡ true
        → laws.exists p.session (mutex_name (get_current_user_token p.token)) k
          ≡ laws.exists session (mutex_name user) k
    same_mutex session user p k e =
        let here : p.session ≡ session = ground arith in
        let named = (bytes_eq_iff (get_current_user_token p.token) user).0 (ground arith) in
        ap (λ x. laws.exists p.session (mutex_name x) k) named
        ∙ ap (λ n. laws.exists n (mutex_name user) k) here

    primaries_none :
        (session : ℕ) (user : Wide) (ps : List Process) (k : m.Kernel)
        → laws.exists session (mutex_name user) k ≡ true
        → primaries session user (start_all ps k) ≡ 0
    unfolding start_all single_instance
    primaries_none session user [] k held = refl
    primaries_none session user (p ∷ ps) k held =
        let u = get_current_user_token p.token in
        let k' = (m.create_mutex p.session (mutex_name u) k).2 in
        let rest = primaries_none session user ps k' (laws.keeps _ _ _ _ k held) in
        elim (Bool-cases (p.session == session && bytes_eq u user)) [
          | inl e ↦
              let same = same_mutex session user p k e in
              ground (arith, rest, laws.tells p.session (mutex_name u) k, same, held, e)
          | inr e ↦ ground (arith, rest, e)
        ]

    -- However often the program is started while no instance ends, of the instances of one session with
    -- one user token (the user's SID, or "default" where a call for it fails) at most one takes itself
    -- for the first, whatever mutexes exist at first and whichever calls fail.
    pub primaries-start_all :
        (session : ℕ) (user : Wide) (ps : List Process) (k : m.Kernel)
        → primaries session user (start_all ps k) ≤ 1
    unfolding start_all single_instance
    primaries-start_all session user [] k = omega arith
    primaries-start_all session user (p ∷ ps) k =
        let u = get_current_user_token p.token in
        let (made, existed, k') = m.create_mutex p.session (mutex_name u) k in
        let rest = primaries-start_all session user ps k' in
        elim (Bool-cases (p.session == session && bytes_eq u user)) [
          | inl e ↦ elim (Bool-cases made) [
            | inl created ↦
                let held =
                  sym (same_mutex session user p k' e)
                  ∙ laws.makes p.session (mutex_name u) k created in
                ground (arith, primaries_none session user ps k' held)
            | inr failed ↦ ground (arith, rest)
          ]
          | inr e ↦ ground (arith, rest, e)
        ]
