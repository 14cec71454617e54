-- ===== src/CircleBuffer.antt =====
-- `circle_buffer` of base/circle_buffer.h: an array of a fixed size that is used as a ring, and in
-- which a value that finds no room takes the place of the oldest one.
pub mod Ring
use https_proxy_server.Base.{
  ℕ, zero, suc, ◌+◌, ◌-◌, Bool, true, false, Option, none, some, List, [], ◌∷◌, ◌==◌, ltb,
  if◌then◌else◌,
}

-- `index`
abbrev pub index : ℕ → ℕ → ℕ
index capacity i = if ltb i capacity then i else 0

module _ {ℓ} where
  -- `data_` as the function from an index to the value there, `front_`, `back_`, `capacity_`, `size_`.
  pub record CircleBuffer (A : Type ℓ) : Type ℓ where
    pub values : ℕ → A
    pub front : ℕ
    pub back : ℕ
    pub capacity : ℕ
    pub size : ℕ

  -- `data_[i] = x`
  unfoldable pub put : {A : Type ℓ} → ℕ → A → (ℕ → A) → ℕ → A
  put i x values k = if k == i then x else values k

  -- `circle_buffer(n,val)` for an `n` above 0.
  unfoldable pub new_circle : {A : Type ℓ} → ℕ → A → CircleBuffer A
  new_circle n val = record { values = λ k. val; front = 0; back = n - 1; capacity = n; size = n }

  abbrev pub is_full : {A : Type ℓ} → CircleBuffer A → Bool
  is_full c = c.size == c.capacity

  abbrev pub is_empty : {A : Type ℓ} → CircleBuffer A → Bool
  is_empty c = c.size == 0

  unfoldable pub push_back : {A : Type ℓ} → A → CircleBuffer A → CircleBuffer A
  unfolding put
  push_back x c =
      if is_full c
      then if is_empty c then c else record c {
        values = put c.front x c.values;
        back = c.front;
        front = index c.capacity (c.front + 1);
      }
      else let b = index c.capacity (c.back + 1) in
        record c { values = put b x c.values; back = b; size = suc c.size }

  -- `pop_front`; `none` is the failed assertion.
  unfoldable pub pop_front : {A : Type ℓ} → CircleBuffer A → Option (CircleBuffer A)
  pop_front c =
      if is_empty c
      then none
      else some (record c { front = index c.capacity (c.front + 1); size = c.size - 1 })

  unfoldable pub front_value : {A : Type ℓ} → CircleBuffer A → Option A
  front_value c = if is_empty c then none else some (c.values c.front)

  unfoldable pub back_value : {A : Type ℓ} → CircleBuffer A → Option A
  back_value c = if is_empty c then none else some (c.values c.back)

  -- `clear`
  unfoldable pub clear : {A : Type ℓ} → CircleBuffer A → CircleBuffer A
  clear c = record c { size = 0; front = 0; back = c.capacity - 1 }
