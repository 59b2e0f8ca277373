-- ===== src/DataConvert/Itoa/PutLong.antt =====
-- The unrolled branches of `ulltoa` in terms of the plain digit loop.
use zrsocket.Base.{ℕ, ◌^◌, ◌<◌, inl, inr, refl, ltb, if_intro, tests, Memory}
use zrsocket.DataConvert.Itoa.{Conversion, ulltoa_digits}
use zrsocket.DataConvert.Itoa.Put.{IsText, IsText-branch, finish-less10, finish-less100}

pub ulltoa_digits-IsText :
    (value : ℕ) (str : Memory) → value < 2 ^ 64 → IsText value str (ulltoa_digits value str)
unfolding ulltoa_digits
ulltoa_digits-IsText value str h =
    if_intro (IsText value str) (ltb value 10)
      (λ t1. IsText-branch value str 1 (finish-less10 0 s (omega tests)) (omega tests) (inl refl))
      (λ f1.
        if_intro (IsText value str) (ltb value 100)
          (λ t2.
            IsText-branch value str 2 (finish-less100 0 s (omega tests)) (omega tests)
              (inr (omega tests)))
          (λ f2.
            if_intro (IsText value str) (ltb value 1000)
              (λ t3.
                IsText-branch value str 3 (finish-less10 1 s (omega tests)) (omega tests)
                  (inr (omega tests)))
              (λ f3.
                if_intro (IsText value str) (ltb value 10000)
                  (λ t4.
                    IsText-branch value str 4 (finish-less100 1 s (omega tests)) (omega tests)
                      (inr (omega tests)))
                  (λ f4.
                    if_intro (IsText value str) (ltb value 100000)
                      (λ t5.
                        IsText-branch value str 5 (finish-less10 2 s (omega tests)) (omega tests)
                          (inr (omega tests)))
                      (λ f5.
                        if_intro (IsText value str) (ltb value 1000000)
                          (λ t6.
                            IsText-branch value str 6 (finish-less100 2 s (omega tests))
                              (omega tests) (inr (omega tests)))
                          (λ f6.
                            if_intro (IsText value str) (ltb value 10000000)
                              (λ t7.
                                IsText-branch value str 7 (finish-less10 3 s (omega tests))
                                  (omega tests) (inr (omega tests)))
                              (λ f7.
                                if_intro (IsText value str) (ltb value 100000000)
                                  (λ t8.
                                    IsText-branch value str 8 (finish-less100 3 s (omega tests))
                                      (omega tests) (inr (omega tests)))
                                  (λ f8.
                                    if_intro (IsText value str) (ltb value 1000000000)
                                      (λ t9.
                                        IsText-branch value str 9 (finish-less10 4 s (omega tests))
                                          (omega tests) (inr (omega tests)))
                                      (λ f9.
                                        if_intro (IsText value str) (ltb value 10000000000)
                                          (λ t10.
                                            IsText-branch value str 10
                                              (finish-less100 4 s (omega tests)) (omega tests)
                                              (inr (omega tests)))
                                          (λ f10.
                                            if_intro (IsText value str) (ltb value 100000000000)
                                              (λ t11.
                                                IsText-branch value str 11
                                                  (finish-less10 5 s (omega tests)) (omega tests)
                                                  (inr (omega tests)))
                                              (λ f11.
                                                if_intro (IsText value str)
                                                  (ltb value 1000000000000)
                                                  (λ t12.
                                                    IsText-branch value str 12
                                                      (finish-less100 5 s (omega tests))
                                                      (omega tests) (inr (omega tests)))
                                                  (λ f12.
                                                    if_intro (IsText value str)
                                                      (ltb value 10000000000000)
                                                      (λ t13.
                                                        IsText-branch value str 13
                                                          (finish-less10 6 s (omega tests))
                                                          (omega tests) (inr (omega tests)))
                                                      (λ f13.
                                                        if_intro (IsText value str)
                                                          (ltb value 100000000000000)
                                                          (λ t14.
                                                            IsText-branch value str 14
                                                            (finish-less100 6 s (omega tests))
                                                            (omega tests) (inr (omega tests)))
                                                          (λ f14.
                                                            if_intro (IsText value str)
                                                            (ltb value 1000000000000000)
                                                            (λ t15.
                                                            IsText-branch value str 15
                                                            (finish-less10 7 s (omega tests))
                                                            (omega tests) (inr (omega tests)))
                                                            (λ f15.
                                                            if_intro (IsText value str)
                                                            (ltb value 10000000000000000)
                                                            (λ t16.
                                                            IsText-branch value str 16
                                                            (finish-less100 7 s (omega tests))
                                                            (omega tests) (inr (omega tests)))
                                                            (λ f16.
                                                            if_intro (IsText value str)
                                                            (ltb value 100000000000000000)
                                                            (λ t17.
                                                            IsText-branch value str 17
                                                            (finish-less10 8 s (omega tests))
                                                            (omega tests) (inr (omega tests)))
                                                            (λ f17.
                                                            if_intro (IsText value str)
                                                            (ltb value 1000000000000000000)
                                                            (λ t18.
                                                            IsText-branch value str 18
                                                            (finish-less100 8 s (omega tests))
                                                            (omega tests) (inr (omega tests)))
                                                            (λ f18.
                                                            if_intro (IsText value str)
                                                            (ltb value 10000000000000000000)
                                                            (λ t19.
                                                            IsText-branch value str 19
                                                            (finish-less10 9 s (omega tests))
                                                            (omega tests) (inr (omega tests)))
                                                            (λ f19.
                                                            IsText-branch value str 20
                                                            (finish-less100 9 s (omega tests))
                                                            (omega tests)
                                                            (inr (omega tests)))))))))))))))))))))
  where
    s : Conversion
    s = record { value = value; str = str }
