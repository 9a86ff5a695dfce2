-- ===== src/Epd/Show/Pages.antt =====
-- The texts of the Chinese demo in src/epd200x200.c, as UTF-8 bytes.
use esp32s3tinyepaper.Base.{ℕ, List, [], ◌∷◌}

abbrev pub demo_pages : List (List ℕ)
demo_pages =
    (229 ∷ 142 ∷ 159 ∷ 229 ∷ 167 ∷ 139 ∷ 58 ∷ 51 ∷ 46 ∷ 48 ∷ 77 ∷ 32 ∷ 51 ∷ 57 ∷ 54 ∷ 57 ∷ 57 ∷ 50
      ∷ 232 ∷ 161 ∷ 140 ∷ 10 ∷ 229 ∷ 173 ∷ 144 ∷ 233 ∷ 155 ∷ 134 ∷ 58 ∷ 49 ∷ 46 ∷ 48 ∷ 77 ∷ 32 ∷ 49
      ∷ 51 ∷ 51 ∷ 53 ∷ 56 ∷ 52 ∷ 232 ∷ 161 ∷ 140 ∷ 10 ∷ 228 ∷ 189 ∷ 147 ∷ 231 ∷ 167 ∷ 175 ∷ 231
      ∷ 186 ∷ 166 ∷ 229 ∷ 135 ∷ 143 ∷ 229 ∷ 176 ∷ 145 ∷ 54 ∷ 54 ∷ 37 ∷ [])
    ∷ (229 ∷ 133 ∷ 177 ∷ 228 ∷ 191 ∷ 157 ∷ 231 ∷ 149 ∷ 153 ∷ 55 ∷ 53 ∷ 49 ∷ 53 ∷ 229 ∷ 173 ∷ 151
        ∷ 229 ∷ 189 ∷ 162 ∷ 10 ∷ 231 ∷ 188 ∷ 186 ∷ 229 ∷ 164 ∷ 177 ∷ 50 ∷ 53 ∷ 229 ∷ 173 ∷ 151 ∷ 229
        ∷ 189 ∷ 162 ∷ 10 ∷ 229 ∷ 143 ∷ 175 ∷ 229 ∷ 156 ∷ 168 ∷ 101 ∷ 120 ∷ 116 ∷ 114 ∷ 97 ∷ 230
        ∷ 150 ∷ 135 ∷ 228 ∷ 187 ∷ 182 ∷ 232 ∷ 161 ∷ 165 ∷ 229 ∷ 133 ∷ 133 ∷ [])
    ∷ (122 ∷ 112 ∷ 105 ∷ 120 ∷ 229 ∷ 173 ∷ 151 ∷ 229 ∷ 186 ∷ 147 ∷ 230 ∷ 156 ∷ 128 ∷ 229 ∷ 176 ∷ 143
        ∷ 229 ∷ 140 ∷ 150 ∷ 229 ∷ 174 ∷ 140 ∷ 230 ∷ 136 ∷ 144 ∷ 228 ∷ 191 ∷ 157 ∷ 231 ∷ 149 ∷ 153
        ∷ 58 ∷ 232 ∷ 139 ∷ 177 ∷ 230 ∷ 150 ∷ 135 ∷ 49 ∷ 32 ∷ 231 ∷ 172 ∷ 166 ∷ 229 ∷ 143 ∷ 183 ∷ 229
        ∷ 146 ∷ 140 ∷ 229 ∷ 184 ∷ 184 ∷ 231 ∷ 148 ∷ 168 ∷ 231 ∷ 174 ∷ 128 ∷ 228 ∷ 189 ∷ 147 ∷ 228
        ∷ 184 ∷ 173 ∷ 230 ∷ 150 ∷ 135 ∷ 50 ∷ 32 ∷ 32 ∷ 122 ∷ 112 ∷ 105 ∷ 120 ∷ 229 ∷ 173 ∷ 151 ∷ 229
        ∷ 186 ∷ 147 ∷ 230 ∷ 156 ∷ 128 ∷ 229 ∷ 176 ∷ 143 ∷ 229 ∷ 140 ∷ 150 ∷ 229 ∷ 174 ∷ 140 ∷ 230
        ∷ 136 ∷ 144 ∷ 51 ∷ 32 ∷ 228 ∷ 191 ∷ 157 ∷ 231 ∷ 149 ∷ 153 ∷ 58 ∷ 232 ∷ 139 ∷ 177 ∷ 230 ∷ 150
        ∷ 135 ∷ 47 ∷ 231 ∷ 172 ∷ 166 ∷ 229 ∷ 143 ∷ 183 ∷ 10 ∷ 229 ∷ 146 ∷ 140 ∷ 229 ∷ 184 ∷ 184
        ∷ 231 ∷ 148 ∷ 168 ∷ 231 ∷ 174 ∷ 128 ∷ 228 ∷ 189 ∷ 147 ∷ 228 ∷ 184 ∷ 173 ∷ 230 ∷ 150 ∷ 135
        ∷ 10 ∷ 122 ∷ 112 ∷ 105 ∷ 120 ∷ 229 ∷ 173 ∷ 151 ∷ 229 ∷ 186 ∷ 147 ∷ 230 ∷ 156 ∷ 128 ∷ 229
        ∷ 176 ∷ 143 ∷ 229 ∷ 140 ∷ 150 ∷ 229 ∷ 174 ∷ 140 ∷ 230 ∷ 136 ∷ 144 ∷ 10 ∷ 228 ∷ 191 ∷ 157
        ∷ 231 ∷ 149 ∷ 153 ∷ 58 ∷ 232 ∷ 139 ∷ 177 ∷ 230 ∷ 150 ∷ 135 ∷ 47 ∷ 231 ∷ 172 ∷ 166 ∷ 229
        ∷ 143 ∷ 183 ∷ 10 ∷ 229 ∷ 146 ∷ 140 ∷ 229 ∷ 184 ∷ 184 ∷ 231 ∷ 148 ∷ 168 ∷ 231 ∷ 174 ∷ 128
        ∷ 228 ∷ 189 ∷ 147 ∷ 228 ∷ 184 ∷ 173 ∷ 230 ∷ 150 ∷ 135 ∷ [])
    ∷ []
