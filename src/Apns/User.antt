-- ===== src/Apns/User.antt =====
-- The user of a client: the constructor and `SetUserInfo` of SslTcpClient.cpp, and `OnNetDisconnect`
-- and `OnNetConnectFailed`. The sizes of the buffers are constants of the library's TcpClient.
use pushserver.Prelude.{
  ℕ, zero, suc, ◌≤◌, ◌<◌, ◌≡◌, refl, ap, ◌∙◌, [], ◌∷◌, ◌++◌, Bytes, c_str, Result, ok, overrun,
  ◌>>=◌, length, drop, replicate, ltb, le→ltb, if◌then◌else◌, arith, take_else, append-nil,
}
use pushserver.Apns.Client.{Client, offline_}

-- The six texts: the buffers, or what they are set to.
pub record UserInfo : Type 0 where
  pub user_type : Bytes
  pub user_name : Bytes
  pub password : Bytes
  pub app_name : Bytes
  pub dev_id : Bytes
  pub realm : Bytes

pub record Sizes : Type 0 where
  pub type_len : ℕ
  pub name_len : ℕ
  pub password_len : ℕ
  pub param_len : ℕ

-- The `memset`s of the constructor.
unfoldable pub new_user : Sizes → UserInfo
new_user z = record {
  user_type = replicate z.type_len 0;
  user_name = replicate z.name_len 0;
  password = replicate z.password_len 0;
  app_name = replicate z.param_len 0;
  dev_id = replicate z.param_len 0;
  realm = replicate z.param_len 0;
}

-- `memcpy(buf, s, strlen(s))`; the assertion on the length is one of debugging.
unfoldable pub copy_text : ℕ → Bytes → Bytes → Result Bytes
copy_text size s buf =
    if ltb size (length (c_str s)) then overrun else ok (c_str s ++ drop (length (c_str s)) buf)

unfoldable pub set_user_info : Sizes → UserInfo → UserInfo → Result UserInfo
unfolding copy_text
set_user_info z s u = do
  type ← copy_text z.type_len s.user_type u.user_type
  name ← copy_text z.name_len s.user_name u.user_name
  password ← copy_text z.password_len s.password u.password
  app ← copy_text z.param_len s.app_name u.app_name
  dev ← copy_text z.param_len s.dev_id u.dev_id
  realm ← copy_text z.param_len s.realm u.realm
  ok (record {
    user_type = type;
    user_name = name;
    password = password;
    app_name = app;
    dev_id = dev;
    realm = realm;
  })

unfoldable pub on_net_connect_failed : Client → Client
unfolding offline_
on_net_connect_failed c = offline_ c

unfoldable pub on_net_disconnect : Client → Client
unfolding offline_
on_net_disconnect c = offline_ c

-- A text before others that begin with a NUL or are empty, from some character on.
c_str-drop :
    (s z : Bytes) (n : ℕ)
    → c_str z ≡ []
    → n ≤ length (c_str s)
    → c_str (drop n (c_str s ++ z)) ≡ drop n (c_str s)
c_str-drop [] z zero h short = h
c_str-drop [] z (suc n) h short = absurd (omega arith)
c_str-drop (zero ∷ s) z zero h short = h
c_str-drop (zero ∷ s) z (suc n) h short = absurd (omega arith)
c_str-drop (suc b ∷ s) z zero h short = ap (◌∷◌ (suc b)) (c_str-drop s z 0 h (omega arith))
c_str-drop (suc b ∷ s) z (suc n) h short = c_str-drop s z n h (omega arith)

c_str-append : (s z : Bytes) → c_str (c_str s ++ z) ≡ c_str s ++ c_str z
c_str-append [] z = refl
c_str-append (zero ∷ s) z = refl
c_str-append (suc b ∷ s) z = ap (◌∷◌ (suc b)) (c_str-append s z)

c_str-zeros : (n m : ℕ) → c_str (drop n (replicate m 0)) ≡ []
c_str-zeros zero zero = refl
c_str-zeros zero (suc m) = refl
c_str-zeros (suc n) zero = refl
c_str-zeros (suc n) (suc m) = c_str-zeros n m

-- A text that is copied into a new buffer with room for its NUL is read back; a second one that is
-- not longer is read with the end of the first behind it, since no NUL is copied.
pub copy_text-c_str :
    (size : ℕ) (s t : Bytes)
    → length (c_str s) < size
    → length (c_str t) ≤ length (c_str s)
    → (u v : Bytes) × (copy_text size s (replicate size 0) ≡ ok u)
      × (c_str u ≡ c_str s)
      × (copy_text size t u ≡ ok v)
      × (c_str v ≡ c_str t ++ drop (length (c_str t)) (c_str s))
unfolding copy_text
copy_text-c_str size s t room short =
    let zeros : Bytes = drop (length (c_str s)) (replicate size 0) in
    (
      c_str s ++ zeros,
      c_str t ++ drop (length (c_str t)) (c_str s ++ zeros),
      take_else _ _ (le→ltb size (length (c_str s)) (omega arith)),
      c_str-append s zeros
          ∙ ap (◌++◌ (c_str s)) (c_str-zeros (length (c_str s)) size)
          ∙ append-nil (c_str s),
      take_else _ _ (le→ltb size (length (c_str t)) (omega arith)),
      c_str-append t (drop (length (c_str t)) (c_str s ++ zeros))
          ∙ ap (◌++◌ (c_str t))
              (c_str-drop s zeros (length (c_str t)) (c_str-zeros (length (c_str s)) size) short),
    )
