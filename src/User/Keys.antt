-- ===== src/User/Keys.antt =====
-- user/xo-user.c and src/main.c: the keys that go through the attribute of the device.
use kxo.Prelude.{
  ℕ, ◌≡◌, ◌⊎◌, inl, inr, refl, sym, ap, ◌∙◌, arith, List, [], ◌∷◌, ◌==◌, if◌then◌else◌, not, Bool,
  true, false, Option, none, some, if_both, bit_xor,
}
use mathlib.Core.Path.{subst}
use kxo.Engine.{Kxo}
use kxo.Engine.Device.{kxo_state_show, kxo_state_store}
use kxo.User.{User, key_pressed, listen_keyboard_handler}

-- `sscanf` of what `snprintf` has made with the same format.
abbrev pub Scans : (List ℕ → Option (ℕ × ℕ × ℕ)) → Type 0
Scans sscanf = (d r e : ℕ) → sscanf (d ∷ b' ' ∷ r ∷ b' ' ∷ e ∷ 10 ∷ []) ≡ some (d, r, e)

module _ {Rl : Type 0} (sscanf : List ℕ → Option (ℕ × ℕ × ℕ)) where
  -- What is written goes to the module, 6 bytes of it.
  abbrev pub stored : Option (List ℕ) → Kxo Rl → Kxo Rl
  stored none k = k
  stored (some buf) k = (kxo_state_store sscanf buf 6 k).0

  -- A call of the handler: what it reads is what the attribute shows.
  abbrev pub press : Bool × Option ℕ → Kxo Rl × User → Kxo Rl × User
  press (opened, key) (k, u) =
      let (u', out) = listen_keyboard_handler opened key (kxo_state_show k.attr_obj) u in
      (stored out k, u')

  abbrev pub press_all : List (Bool × Option ℕ) → Kxo Rl × User → Kxo Rl × User
  press_all [] s = s
  press_all (p ∷ ps) s = press_all ps (press p s)

-- The display is on or off in the module; it is on just when the program reads boards, as long as
-- the program goes on; and the module is told of the end just when the program ends.
pub record Agree {Rl : Type 0} (k : Kxo Rl) (u : User) : Type 0 where
  pub flag : (k.attr_obj.display ≡ b'0') ⊎ (k.attr_obj.display ≡ b'1')
  pub same : u.end_attr ≡ false → u.read_attr ≡ (k.attr_obj.display == b'1')
  pub ends : k.attr_obj.end ≡ (if u.end_attr then b'1' else b'0')

toggle :
    (d : ℕ)
    → (d ≡ b'0') ⊎ (d ≡ b'1')
    → let d' = bit_xor (bit_xor d b'0') b'1' in
      ((d' ≡ b'0') ⊎ (d' ≡ b'1')) × ((d' == b'1') ≡ not (d == b'1'))
toggle d (inl e) = rw e (inr refl, refl)
toggle d (inr e) = rw e (inl refl, refl)

module _ {Rl : Type 0} (sscanf : List ℕ → Option (ℕ × ℕ × ℕ)) (scans : Scans sscanf) where
  abbrev Agreed : Kxo Rl × User → Type 0
  Agreed p = Agree p.0 p.1

  store-shown :
      (d r e : ℕ) (k : Kxo Rl)
      → stored sscanf (some (d ∷ b' ' ∷ r ∷ b' ' ∷ e ∷ 10 ∷ [])) k
        ≡ record k { attr_obj = record { display = d; resume = r; end = e } }
  unfolding kxo_state_store
  store-shown d r e k = rw (scans d r e, stored, kxo_state_store) refl

  -- The state after a key, with what is written put into the module.
  pressed : Kxo Rl → User × Option (List ℕ) → Kxo Rl × User
  pressed k p = (stored sscanf p.1 k, p.0)

  key_pressed-Agreed :
      (input : ℕ) (k : Kxo Rl) (u : User)
      → Agree k u
      → Agreed (pressed k (key_pressed input (kxo_state_show k.attr_obj) u))
  unfolding pressed key_pressed kxo_state_show
  key_pressed-Agreed input k u h =
      let a = k.attr_obj in
      let P : User × Option (List ℕ) → Type 0 = λ p. Agreed (pressed k p) in
      let flipped = bit_xor (bit_xor a.display b'0') b'1' in
      let (flag, same) = toggle a.display h.flag in
      let asked =
        subst (λ k'. Agree k' (record u { read_attr = not u.read_attr }))
          (sym (store-shown flipped a.resume a.end k))
          (record { flag = flag; same = λ on. ap not (h.same on) ∙ sym same; ends = h.ends }) in
      let ended =
        subst (λ k'. Agree k' (record u { read_attr = false; end_attr = true }))
          (sym (store-shown a.display a.resume b'1' k))
          (record { flag = h.flag; same = λ e. absurd (ground (arith, e)); ends = refl }) in
      if_both P (input == 16) _ _ asked (
        if_both P (input == 17) _ _ ended (
          if_both P (input == 113) _ _ (record { flag = h.flag; same = h.same; ends = h.ends })
            (if_both P (input == 119) _ _ (record { flag = h.flag; same = h.same; ends = h.ends })
              h)))

  press-Agreed :
      (p : Bool × Option ℕ) (k : Kxo Rl) (u : User) → Agree k u → Agreed (press sscanf p (k, u))
  unfolding listen_keyboard_handler pressed
  press-Agreed (opened, none) k u h = h
  press-Agreed (true, some input) k u h = key_pressed-Agreed input k u h
  press-Agreed (false, some input) k u h = h

  -- The program and the module agree after any keys, also where the attribute cannot be opened:
  -- the display of the module stays '0' or '1' and is '1' just when the program reads boards, until
  -- the key that ends the program, and the end is '1' in the module just from that key on. `sscanf`
  -- reads what `snprintf` makes with the same format.
  pub press_all-Agree :
      (ps : List (Bool × Option ℕ)) (k : Kxo Rl) (u : User)
      → Agree k u
      → Agree (press_all sscanf ps (k, u)).0 (press_all sscanf ps (k, u)).1
  press_all-Agree [] k u h = h
  press_all-Agree (p ∷ ps) k u h =
      let s = press sscanf p (k, u) in press_all-Agree ps s.0 s.1 (press-Agreed p k u h)
