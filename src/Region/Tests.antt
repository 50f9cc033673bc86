-- ===== src/Region/Tests.antt =====
-- Tests of the region, and its theorems at concrete regions.
use concurrent_project.Prelude.{◌==◌, ◌≡◌, refl, some, arith, if◌then◌else◌}
use concurrent_project.Region.{
  Store, to_be_deleted, absent, get_pointer_top_digits, create_opaque_data_pointer,
  create_transparent_data_pointer, free_marked_segments_if_time,
}
use concurrent_project.Region.Pointers.{create_transparent-create_opaque}
use concurrent_project.Region.Segments.{Cleaned, free_marked_segments_if_time-Cleaned}
use concurrent_project.Region.Samples.{region, world}

create_transparent-create_opaque_example :
    create_transparent_data_pointer region (create_opaque_data_pointer 4100 3) ≡ 4100
unfolding get_pointer_top_digits
create_transparent-create_opaque_example =
    create_transparent-create_opaque region 4100 3 (omega arith) (omega arith) refl

-- A region in which a cleaning is due and the third segment is marked.
abbrev due : Store
due = record world {
  tm = record region {
    transactions_committed_since_last_free = 100000;
    segment_status = λ i. if i == 2 then to_be_deleted else absent;
  };
}

free_marked_segments_if_time-Cleaned_example :
    (t : Store) × (free_marked_segments_if_time due ≡ some t) × Cleaned due t
free_marked_segments_if_time-Cleaned_example =
    free_marked_segments_if_time-Cleaned due (omega arith) (refl, refl)
