-- ===== src/Memory/Utilization/Tests.antt =====
-- Runs of pageNeedsMoved.
use bsqgc.Prelude.{true, false, ◌≡◌, refl}
use bsqgc.Memory.Float.Fixed.{fixed}
use bsqgc.Memory.Utilization.{
  page_needs_moved, is_low_util, is_high_util, is_full, get_bucket_index, bucket_loop, same_index,
  xor_bool,
}

moved_up : page_needs_moved fixed 580_000 620_000 ≡ true
unfolding page_needs_moved is_low_util is_high_util is_full get_bucket_index bucket_loop same_index
    xor_bool
moved_up = refl

stays : page_needs_moved fixed 310_000 340_000 ≡ false
unfolding page_needs_moved is_low_util is_high_util is_full get_bucket_index bucket_loop same_index
    xor_bool
stays = refl
