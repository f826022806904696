-- ===== src/Memstore/Closure/Strings.antt =====
-- Get, Set and the methods on one key of any type keep a closed family of predicates.
use cache_pot.Prelude.{
  ℕ, suc, Bool, true, false, Option, none, some, ◌≡◌, refl, Bytes, ◌&&◌, not, is_some, ℤ,
}
use cache_pot.GoMap.{lookup}
use cache_pot.Memstore.Entry.{Entry, has_kind, touch, string_of, kind_string}
use cache_pot.Memstore.Cell.{Cell, Config, evict_if_needed}
use cache_pot.Memstore.Strings
use cache_pot.Memstore.Strings.{
  SetOpts, deadline, guarded_write, write_string, new_string, expire_at,
}
use cache_pot.Memstore.Closure.{Closed, after_method, with_live-closed, evict_if_needed-closed}
use cache_pot.Memstore.Closure.Rules.{if-closed, idle, changes}

module _ {P : ℕ → Cell → Type 0} {cfg : Config} {ck : Bytes} (cl : Closed P cfg ck) where
  write_string-closed :
      (now : ℕ) (val : Bytes) (d : ℤ) (exists : Bool) (b : ℕ) (c : Cell)
      → P b c
      → P (suc (suc b)) (write_string cfg ck now val d exists c)
  unfolding write_string
  write_string-closed now val d true b c h =
      cl.stored (new_string val (deadline now d) now) (suc b) c (cl.weaken b c h)
  write_string-closed now val d false b c h =
      cl.stored (new_string val (deadline now d) now) (suc b) (evict_if_needed cfg now c)
        (evict_if_needed-closed cl now b c h)

  guarded_write-closed :
      (now : ℕ) (val : Bytes) (opts : SetOpts) (exists : Bool) (prev : Option Bytes) (b : ℕ)
      (c : Cell)
      → P b c
      → P (suc (suc b)) (guarded_write cfg ck now val opts exists prev c).1
  unfolding guarded_write
  guarded_write-closed now val opts exists prev b c h =
      if-closed cl (opts.only_if_nx && exists) _ _ (idle cl b c h) (
        if-closed cl (opts.only_if_xx && not exists) _ _ (idle cl b c h)
          (write_string-closed now val opts.ttl exists b c h))

  pub set-closed :
      (now : ℕ) (val : Bytes) (opts : SetOpts) (b : ℕ) (c : Cell)
      → P b c
      → P (after_method b) (Strings.set cfg ck now val opts c).1
  unfolding Strings.set
  set-closed now val opts b c h = cl.weaken (suc (suc (suc b))) _ (
      with_live-closed cl now _ _ (λ b c. guarded_write-closed now val opts false none b c)
        (λ e b c at h.
          if-closed cl opts.get_old _ _
            (if-closed cl (has_kind kind_string e) _ _
              (guarded_write-closed now val opts true (some (string_of e.value)) b c h)
              (idle cl b c h))
            (guarded_write-closed now val opts true none b c h))
        b c h)

  pub get-closed : (now b : ℕ) (c : Cell) → P b c → P (after_method b) (Strings.get ck now c).1
  unfolding Strings.get
  get-closed now b c h =
      changes cl kind_string now _ _
        (λ e b c right at h. cl.kept e (touch now e) (suc b) c at refl refl (cl.weaken b c h)) b c h

  pub del_key-closed :
      (now b : ℕ) (c : Cell) → P b c → P (after_method b) (Strings.del_key ck now c).1
  unfolding Strings.del_key
  del_key-closed now b c h = cl.weaken (suc (suc (suc b))) _ (
      with_live-closed cl now _ _ (λ b c. idle cl b c)
        (λ e b c at h. cl.weaken (suc b) _ (cl.dropped b c h)) b c h)

  expire_at-closed :
      (t : Option ℕ) (e : Entry) (b : ℕ) (c : Cell)
      → lookup ck c.data_map ≡ some e
      → P b c
      → P (suc (suc b)) (expire_at ck t e c).1
  unfolding expire_at
  expire_at-closed none e b c at h = cl.weaken (suc b) _ (cl.dropped b c h)
  expire_at-closed (some t) e b c at h = cl.weaken (suc b) _ (cl.reexpired e (some t) b c at h)

  pub expire-closed :
      (d : ℤ) (now b : ℕ) (c : Cell) → P b c → P (after_method b) (Strings.expire ck now d c).1
  unfolding Strings.expire
  expire-closed d now b c h =
      cl.weaken (suc (suc (suc b))) _
        (with_live-closed cl now _ _ (λ b c. idle cl b c) (expire_at-closed (deadline now d)) b c h)

  pub ttl-closed : (now b : ℕ) (c : Cell) → P b c → P (after_method b) (Strings.ttl ck now c).1
  unfolding Strings.ttl
  ttl-closed now b c h =
      cl.weaken (suc (suc (suc b))) _
        (with_live-closed cl now _ _ (λ b c. idle cl b c) (λ e b c at. idle cl b c) b c h)

  pub persist-closed :
      (now b : ℕ) (c : Cell) → P b c → P (after_method b) (Strings.persist ck now c).1
  unfolding Strings.persist
  persist-closed now b c h = cl.weaken (suc (suc (suc b))) _ (
      with_live-closed cl now _ _ (λ b c. idle cl b c)
        (λ e b c at h.
          if-closed cl (is_some e.expires_at) _ _
            (cl.weaken (suc b) _ (cl.reexpired e none b c at h)) (idle cl b c h))
        b c h)
