-- ===== src/Disk.antt =====
-- The block device as kernel/log.c and kernel/fs.c see it, through the buffer cache of
-- kernel/bio.c. A block is its 256 32-bit words. `cache b` is what `bread` returns for block `b`: the
-- buffer's contents, which a `bwrite` copies to the disk. A buffer whose contents are newer than the
-- disk's is pinned, so it is not recycled, and `cache` needs no eviction. The disk driver
-- (virtio) writes one block at a time, whole and in order; `power` is the number of writes that it
-- still completes before the machine stops.
use csklub_os.Base.{ℕ, ◌+◌, ◌-◌, ◌==◌, if◌then◌else◌}

abbrev pub Block : Type 0
Block = ℕ → ℕ

abbrev pub Blocks : Type 0
Blocks = ℕ → Block

pub record Device : Type 0 where
  pub disk : Blocks
  pub cache : Blocks
  pub pins : ℕ → ℕ
  pub power : ℕ

abbrev pub update {ℓ} : {A : Type ℓ} → (ℕ → A) → ℕ → A → ℕ → A
update f b v c = if c == b then v else f c

unfoldable pub bread : Device → ℕ → Block
bread d b = d.cache b

-- The caller fills a buffer that it holds.
unfoldable pub fill : Device → ℕ → Block → Device
fill d b v = record d { cache = update d.cache b v }

unfoldable pub bwrite : Device → ℕ → Device
bwrite d b =
    if d.power == 0 then d else record d { disk = update d.disk b (d.cache b); power = d.power - 1 }

unfoldable pub bpin : Device → ℕ → Device
bpin d b = record d { pins = update d.pins b (d.pins b + 1) }

unfoldable pub bunpin : Device → ℕ → Device
bunpin d b = record d { pins = update d.pins b (d.pins b - 1) }

-- The machine starts again: the cache holds what is on the disk, and `power` further writes work.
unfoldable pub reboot : ℕ → Device → Device
reboot power d = record { disk = d.disk; cache = d.disk; pins = λ b. 0; power = power }
