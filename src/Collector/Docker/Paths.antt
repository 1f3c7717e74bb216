-- ===== src/Collector/Docker/Paths.antt =====
-- The container in a cgroup path.
use mathlib.Core.List.{reverse}
use ebpf_probe.Prelude.{
  ℕ, ◌≤◌, ◌≡◌, ◌≢◌, refl, ap, ◌∙◌, ◌⊎◌, inl, inr, false, ◌&&◌, ◌||◌, some, List, [], ◌∷◌, ◌++◌,
  Bytes, All, Bool-cases, arith, codes, has_prefix, contains, split, split-free, index_of-append,
  length, take-append, leb, ◌==◌, lt→ltb, suc,
}
use ebpf_probe.Collector.Docker.{
  long_segment, scope_id, is_scope, docker_loop, or_else, docker_part, containerd_part,
  extract_container_id, long_id, get_container_id_from_cgroup, or_text, up_to,
}

-- A cgroup path as systemd writes it.
abbrev pub scope_path : Bytes → Bytes
scope_path id = codes "/system.slice/docker-" ++ (id ++ codes ".scope")

abbrev pub plain_path : Bytes → Bytes
plain_path id = codes "/docker/" ++ id

-- A text without a byte does not begin with one that has it.
has_prefix_lacks :
    (s p : Bytes) (c : ℕ) (q : Bytes) → All (λ b. b ≢ c) s → has_prefix s (p ++ c ∷ q) ≡ false
unfolding has_prefix
has_prefix_lacks [] [] c q h = refl
has_prefix_lacks [] (x ∷ p) c q h = refl
has_prefix_lacks (b ∷ s) [] c q h = ground arith
has_prefix_lacks (b ∷ s) (x ∷ p) c q h = ground (arith, has_prefix_lacks s p c q h.1)

long_lem : (id : Bytes) → length id ≡ 64 → long_segment ([] ∷ codes "docker" ∷ id ∷ []) ≡ id
unfolding long_segment
long_lem id h = ground arith

docker_lem :
    (id : Bytes)
    → length id ≡ 64
    → is_scope id ≡ false
    → docker_loop ([] ∷ codes "docker" ∷ id ∷ []) ≡ id
unfolding docker_loop
docker_lem id h free = ground arith

or_else_long : (id other : Bytes) → length id ≡ 64 → or_else id other ≡ id
or_else_long [] other h = absurd (omega arith)
or_else_long (c ∷ id) other h = refl

not_scope : (id : Bytes) → All (λ c. c ≢ b'-') id → is_scope id ≡ false
unfolding is_scope
not_scope id h = rw (has_prefix_lacks id (codes "docker") b'-' [] h) refl

abbrev parts : List Bytes → List Bytes
parts l = [] ∷ codes "docker" ∷ l

docker_part-plain_path :
    (id : Bytes)
    → length id ≡ 64
    → All (λ c. c ≢ b'/') id
    → All (λ c. c ≢ b'-') id
    → docker_part (plain_path id) ≡ id
unfolding docker_part
docker_part-plain_path id h free plain =
    ap (λ l. or_else (docker_loop (parts l)) (long_segment (parts l))) (split-free b'/' id free)
    ∙ (ap (λ x. or_else x (long_segment (parts (id ∷ [])))) (docker_lem id h (not_scope id plain))
        ∙ or_else_long id (long_segment (parts (id ∷ []))) h)

long_id-plain_path :
    (id : Bytes) → length id ≡ 64 → All (λ c. c ≢ b'/') id → long_id (plain_path id) ≡ id
unfolding long_id
long_id-plain_path id h free =
    ap (λ l. long_segment (parts l)) (split-free b'/' id free) ∙ long_lem id h

-- For an identifier of 64 bytes without `/` and `-`, the method of the mapper and the function of
-- the package both find it in the path "/docker/<id>".
pub extract_container_id-plain_path :
    (id : Bytes)
    → length id ≡ 64
    → All (λ c. c ≢ b'/') id
    → All (λ c. c ≢ b'-') id
    → (extract_container_id (plain_path id) ≡ id) × (long_id (plain_path id) ≡ id)
unfolding extract_container_id
extract_container_id-plain_path id h free plain = (
  ap (λ x. or_else x (containerd_part (plain_path id))) (docker_part-plain_path id h free plain)
      ∙ or_else_long id (containerd_part (plain_path id)) h,
  long_id-plain_path id h free,
)

up_to-length :
    (id : Bytes)
    → id ≢ []
    → (other : Bytes) → or_text (up_to (id ++ codes ".scope") (some (length id))) other ≡ id
up_to-length [] h other = absurd (h refl)
up_to-length (c ∷ id) h other =
    rw (lt→ltb 0 (suc (length id)) (omega arith)) (take-append (c ∷ id) (codes ".scope"))

-- For a non-empty identifier without a dot, the function that takes a path finds it in the path
-- that systemd writes.
pub get_container_id_from_cgroup-scope_path :
    (id : Bytes)
    → id ≢ []
    → All (λ c. c ≢ b'.') id
    → get_container_id_from_cgroup (scope_path id) ≡ id
unfolding get_container_id_from_cgroup
get_container_id_from_cgroup-scope_path id some_id free =
    let found = index_of-append id b'.' (codes "scope") [] free refl in
    ap
      (λ i.
        or_text (up_to (id ++ codes ".scope") i)
          (long_segment (reverse (split b'/' (scope_path id)))))
      found
    ∙ up_to-length id some_id (long_segment (reverse (split b'/' (scope_path id))))

long_segment_long : (l : List Bytes) → (long_segment l ≡ []) ⊎ (12 ≤ length (long_segment l))
unfolding long_segment
long_segment_long [] = inl refl
long_segment_long (seg ∷ l) = elim (Bool-cases (length seg == 64)) [
  | inl h ↦ inr (rw h (ground arith))
  | inr h ↦ rw h (long_segment_long l)
]

docker_loop_long : (l : List Bytes) → (docker_loop l ≡ []) ⊎ (12 ≤ length (docker_loop l))
unfolding docker_loop
docker_loop_long [] = inl refl
docker_loop_long (seg ∷ l) = elim (Bool-cases (is_scope seg && leb 12 (length (scope_id seg)))) [
  | inl h ↦ rw h (inr (ground arith))
  | inr h ↦ rw h (elim (Bool-cases ((length seg == 64) || (length seg == 12))) [
    | inl k ↦ rw k (inr (ground arith))
    | inr k ↦ rw k (docker_loop_long l)
  ])
]

or_else_bound :
    (a b : Bytes)
    → ((a ≡ []) ⊎ (12 ≤ length a))
    → ((b ≡ []) ⊎ (12 ≤ length b))
    → (or_else a b ≡ []) ⊎ (12 ≤ length (or_else a b))
or_else_bound [] b ha hb = hb
or_else_bound (c ∷ a) b (inl h) hb = absurd (cc)
or_else_bound (c ∷ a) b (inr h) hb = inr h

docker_part_bound : (path : Bytes) → (docker_part path ≡ []) ⊎ (12 ≤ length (docker_part path))
unfolding docker_part
docker_part_bound path = elim (Bool-cases (contains path (codes "docker"))) [
  | inl h ↦ rw h (
      or_else_bound (docker_loop (split b'/' path)) (long_segment (split b'/' path))
        (docker_loop_long (split b'/' path)) (long_segment_long (split b'/' path)))
  | inr h ↦ rw h (inl refl)
]

containerd_part_bound :
    (path : Bytes) → (containerd_part path ≡ []) ⊎ (12 ≤ length (containerd_part path))
unfolding containerd_part
containerd_part_bound path = elim (Bool-cases (contains path (codes "containerd"))) [
  | inl h ↦ rw h (long_segment_long (split b'/' path))
  | inr h ↦ rw h (inl refl)
]

-- What the mapper finds in a path is empty or has 12 bytes at least.
pub extract_container_id_bound :
    (path : Bytes) → (extract_container_id path ≡ []) ⊎ (12 ≤ length (extract_container_id path))
unfolding extract_container_id docker_part containerd_part
extract_container_id_bound path =
    or_else_bound (docker_part path) (containerd_part path) (docker_part_bound path)
      (containerd_part_bound path)
