-- ===== src/DataConvert/Itoa/Width.antt =====
-- `digits10` and the number of digits.
use zrsocket.Base.{ℕ, ◌^◌, ◌<◌, inl, inr, refl, ltb, if_intro, tests}
use zrsocket.DataConvert.Digits.{digits10_u32, digits10_u64}
use zrsocket.DataConvert.Itoa.Put.{HasWidth}

pub digits10_u32-HasWidth : (value : ℕ) → value < 2 ^ 32 → HasWidth value (digits10_u32 value)
unfolding digits10_u32
digits10_u32-HasWidth value h =
    if_intro (HasWidth value) (ltb value 10)
      (λ t1. record { enough = omega tests; needed = inl refl })
      (λ f1.
        if_intro (HasWidth value) (ltb value 100)
          (λ t2. record { enough = omega tests; needed = inr (omega tests) })
          (λ f2.
            if_intro (HasWidth value) (ltb value 1000)
              (λ t3. record { enough = omega tests; needed = inr (omega tests) })
              (λ f3.
                if_intro (HasWidth value) (ltb value 10000)
                  (λ t4. record { enough = omega tests; needed = inr (omega tests) })
                  (λ f4.
                    if_intro (HasWidth value) (ltb value 100000)
                      (λ t5. record { enough = omega tests; needed = inr (omega tests) })
                      (λ f5.
                        if_intro (HasWidth value) (ltb value 1000000)
                          (λ t6. record { enough = omega tests; needed = inr (omega tests) })
                          (λ f6.
                            if_intro (HasWidth value) (ltb value 10000000)
                              (λ t7. record { enough = omega tests; needed = inr (omega tests) })
                              (λ f7.
                                if_intro (HasWidth value) (ltb value 100000000)
                                  (λ t8. record {
                                    enough = omega tests;
                                    needed = inr (omega tests);
                                  })
                                  (λ f8.
                                    if_intro (HasWidth value) (ltb value 1000000000)
                                      (λ t9. record {
                                        enough = omega tests;
                                        needed = inr (omega tests);
                                      })
                                      (λ f9. record {
                                        enough = omega tests;
                                        needed = inr (omega tests);
                                      })))))))))

pub digits10_u64-HasWidth : (value : ℕ) → value < 2 ^ 64 → HasWidth value (digits10_u64 value)
unfolding digits10_u64
digits10_u64-HasWidth value h =
    if_intro (HasWidth value) (ltb value 10)
      (λ t1. record { enough = omega tests; needed = inl refl })
      (λ f1.
        if_intro (HasWidth value) (ltb value 100)
          (λ t2. record { enough = omega tests; needed = inr (omega tests) })
          (λ f2.
            if_intro (HasWidth value) (ltb value 1000)
              (λ t3. record { enough = omega tests; needed = inr (omega tests) })
              (λ f3.
                if_intro (HasWidth value) (ltb value 10000)
                  (λ t4. record { enough = omega tests; needed = inr (omega tests) })
                  (λ f4.
                    if_intro (HasWidth value) (ltb value 100000)
                      (λ t5. record { enough = omega tests; needed = inr (omega tests) })
                      (λ f5.
                        if_intro (HasWidth value) (ltb value 1000000)
                          (λ t6. record { enough = omega tests; needed = inr (omega tests) })
                          (λ f6.
                            if_intro (HasWidth value) (ltb value 10000000)
                              (λ t7. record { enough = omega tests; needed = inr (omega tests) })
                              (λ f7.
                                if_intro (HasWidth value) (ltb value 100000000)
                                  (λ t8. record {
                                    enough = omega tests;
                                    needed = inr (omega tests);
                                  })
                                  (λ f8.
                                    if_intro (HasWidth value) (ltb value 1000000000)
                                      (λ t9. record {
                                        enough = omega tests;
                                        needed = inr (omega tests);
                                      })
                                      (λ f9.
                                        if_intro (HasWidth value) (ltb value 10000000000)
                                          (λ t10. record {
                                            enough = omega tests;
                                            needed = inr (omega tests);
                                          })
                                          (λ f10.
                                            if_intro (HasWidth value) (ltb value 100000000000)
                                              (λ t11. record {
                                                enough = omega tests;
                                                needed = inr (omega tests);
                                              })
                                              (λ f11.
                                                if_intro (HasWidth value) (ltb value 1000000000000)
                                                  (λ t12. record {
                                                    enough = omega tests;
                                                    needed = inr (omega tests);
                                                  })
                                                  (λ f12.
                                                    if_intro (HasWidth value)
                                                      (ltb value 10000000000000)
                                                      (λ t13. record {
                                                        enough = omega tests;
                                                        needed = inr (omega tests);
                                                      })
                                                      (λ f13.
                                                        if_intro (HasWidth value)
                                                          (ltb value 100000000000000)
                                                          (λ t14. record {
                                                            enough = omega tests;
                                                            needed = inr (omega tests);
                                                          })
                                                          (λ f14.
                                                            if_intro (HasWidth value)
                                                            (ltb value 1000000000000000)
                                                            (λ t15. record {
                                                            enough = omega tests;
                                                            needed = inr (omega tests);
                                                            })
                                                            (λ f15.
                                                            if_intro (HasWidth value)
                                                            (ltb value 10000000000000000)
                                                            (λ t16. record {
                                                            enough = omega tests;
                                                            needed = inr (omega tests);
                                                            })
                                                            (λ f16.
                                                            if_intro (HasWidth value)
                                                            (ltb value 100000000000000000)
                                                            (λ t17. record {
                                                            enough = omega tests;
                                                            needed = inr (omega tests);
                                                            })
                                                            (λ f17.
                                                            if_intro (HasWidth value)
                                                            (ltb value 1000000000000000000)
                                                            (λ t18. record {
                                                            enough = omega tests;
                                                            needed = inr (omega tests);
                                                            })
                                                            (λ f18.
                                                            if_intro (HasWidth value)
                                                            (ltb value 10000000000000000000)
                                                            (λ t19. record {
                                                            enough = omega tests;
                                                            needed = inr (omega tests);
                                                            })
                                                            (λ f19. record {
                                                            enough = omega tests;
                                                            needed = inr (omega tests);
                                                            })))))))))))))))))))
