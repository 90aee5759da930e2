-- ===== src/Tests/Budgets.antt =====
-- The fixtures of the admission tests in src/limits.rs.
use gudra.Common.{◌≡◌, refl, arith, true, false, [], ◌∷◌, checked_add, checked_mul}
use gudra.Geometry.{Shape2D}
use gudra.Error.{ok}
use gudra.Shape.Domain.{IsValid}
use gudra.Limits.{ResourceLimits, default, check_shape}
use gudra.Admission.{Budget, Reservation, new, buffer, operation}
use gudra.Admission.Decision.{
  InRange, with_buffer, with_operation, BufferVerdict, buffer-BufferVerdict, OperationVerdict,
  operation-OperationVerdict,
}
use gudra.Admission.History.{System, Reach, fresh, start, next, buffer_admitted, operation_admitted}
use gudra.Admission.Invariant.{Inv, Reach-Inv}
use gudra.Admission.Recovery.{Drains, Reach-Drains}
use gudra.Admission.Request.{check_shape-buffer, with_step}

abbrev small : ResourceLimits
small = record { buffer_bytes = 16; total_bytes = 24; buffers = 3; operations = 1 }

small-InRange : InRange small
small-InRange = omega arith

abbrev held_buffer : Reservation
held_buffer = record { bytes = 16; is_buffer = true }

abbrev held_operation : Reservation
held_operation = record { bytes = 0; is_buffer = false }

abbrev charged : Budget
charged = with_operation (with_buffer (new small) 16)

abbrev working : System
working = record { budget = charged; live = held_operation ∷ held_buffer ∷ []; forgotten = [] }

Reach-working : Reach small working
unfolding buffer operation checked_add
Reach-working =
    next
      (next
        {t = record {
          budget = with_buffer (new small) 16;
          live = held_buffer ∷ [];
          forgotten = [];
        }}
        start (buffer_admitted 16 held_buffer (with_buffer (new small) 16) refl refl))
      (operation_admitted held_operation charged refl refl)

buffer-BufferVerdict_example : BufferVerdict charged 9 (buffer charged 9)
buffer-BufferVerdict_example = buffer-BufferVerdict charged 9 small-InRange

operation-OperationVerdict_example : OperationVerdict charged (operation charged)
operation-OperationVerdict_example = operation-OperationVerdict charged small-InRange

Reach-Inv_example : Inv small working
Reach-Inv_example = Reach-Inv small working small-InRange Reach-working

Reach-Drains_example : Drains (fresh small) working
Reach-Drains_example = Reach-Drains small working small-InRange Reach-working refl

abbrev interior_shape : Shape2D
interior_shape = record {
  interior = (17, 19);
  haloed = (19, 21);
  interior_len = 323;
  haloed_len = 399;
  interior_bytes = 1292;
  haloed_bytes = 1596;
  grid = (2, 2, 1);
}

interior_shape-IsValid : IsValid interior_shape
interior_shape-IsValid = omega arith

passes : check_shape default interior_shape ≡ ok tt
unfolding check_shape checked_add checked_mul
passes = refl

check_shape-buffer_example :
    let source = buffer (new default) 1596 in
    let rhs = buffer source.0 1292 in
    let output = buffer rhs.0 1292 in
    (source.1 ≡ ok (record { bytes = 1596; is_buffer = true }))
    × (rhs.1 ≡ ok (record { bytes = 1292; is_buffer = true }))
    × (output ≡ (with_step default interior_shape, ok (record { bytes = 1292; is_buffer = true })))
check_shape-buffer_example =
    check_shape-buffer default interior_shape (omega arith) interior_shape-IsValid passes
