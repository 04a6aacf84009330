-- ===== src/Tcp/Flags.antt =====
-- app/tcp/flags.py and `_FLAG_MAP` of app/tcp/response_parser.py: what the error flags of a
-- response mean, by its function code.
use ygvcs_py.Prelude.{Option, none, some, List, [], ◌∷◌, String, Text, text_eq, if◌then◌else◌}
use ygvcs_py.Tcp.Constants.{code_at}

abbrev flag_03 : List String
flag_03 = "AGV 처리 실패" ∷ "초기화 파일 열기 실패" ∷ "FPGA 설정 실패" ∷ []

abbrev flag_72 : List String
flag_72 = "전환 실패" ∷ "레이더 미로그인" ∷ []

abbrev flag_06 : List String
flag_06 = "AGV 처리 실패" ∷ []

abbrev flag_07 : List String
flag_07 = "AGV 처리 실패" ∷ []

abbrev flag_08 : List String
flag_08 =
    "AGV 처리 실패" ∷ "현재 경로를 찾을 수 없음" ∷ "작업 시작/종료점과 AGV 현재 위치 불일치" ∷ "현재 AGV가 작업 실행 중"
    ∷ "통신 연결이 설정되지 않음" ∷ []

abbrev flag_0a : List String
flag_0a = "AGV 처리 실패" ∷ "해당 경로가 이미 활성화됨" ∷ "해당 경로를 찾을 수 없음" ∷ []

abbrev flag_11 : List String
flag_11 = "AGV 처리 실패" ∷ []

abbrev flag_12 : List String
flag_12 = "AGV 처리 실패" ∷ "위치 불일치" ∷ "해당 위치를 찾을 수 없음" ∷ "경로 열기 실패" ∷ "위치 편차가 너무 큼, 다시 배치해 주세요" ∷ []

abbrev flag_22 : List String
flag_22 = "AGV 처리 실패" ∷ []

abbrev flag_23 : List String
flag_23 = "AGV 처리 실패" ∷ []

abbrev flag_28 : List String
flag_28 = "AGV 처리 실패" ∷ "학습 진행 중" ∷ "시작점과 종료점이 동일함" ∷ "파일 열기 예외" ∷ "오차가 너무 큼" ∷ []

abbrev flag_29 : List String
flag_29 = "AGV 처리 실패" ∷ "학습 진행 중" ∷ "시작점과 종료점이 동일함" ∷ []

abbrev flag_30 : List String
flag_30 =
    "AGV 처리 실패" ∷ "시작점과 종료점은 동일할 수 없음" ∷ "시작점과 종료점이 동일함" ∷ "조정 거리가 너무 짧음" ∷ "조정 거리가 너무 짧음" ∷ []

abbrev flag_31 : List String
flag_31 =
    "AGV 처리 실패" ∷ "이미지 유사도 계산 오류" ∷ "시작점과 종료점 불일치" ∷ "이미지가 SD 카드에 저장됨" ∷ "조향 휠 각도 오류" ∷ "학습 방향 오류"
    ∷ "픽셀 크기 계산 오류" ∷ "map.bin 열기 실패" ∷ "경로가 너무 짧음, 취소 후 다시 학습해 주세요!" ∷ []

abbrev flag_35 : List String
flag_35 = "AGV 처리 실패" ∷ []

abbrev flag_36 : List String
flag_36 = "AGV 처리 실패" ∷ []

abbrev flag_49 : List String
flag_49 = "AGV 처리 실패" ∷ []

abbrev flag_51 : List String
flag_51 = "AGV 처리 실패" ∷ []

abbrev flag_53 : List String
flag_53 = "AGV 처리 실패" ∷ []

abbrev flag_54 : List String
flag_54 = "AGV 처리 실패" ∷ []

abbrev flag_58 : List String
flag_58 = "AGV 처리 실패" ∷ []

abbrev flag_59 : List String
flag_59 = "AGV 처리 실패" ∷ []

abbrev flag_60 : List String
flag_60 = "AGV 처리 실패" ∷ []

abbrev flag_61 : List String
flag_61 = "AGV 처리 실패" ∷ []

abbrev flag_73 : List String
flag_73 =
    "AGV 모드 오류" ∷ "파일이 비어있음" ∷ "쓰기 실패" ∷ "삭제 시 해당 지점을 찾을 수 없음" ∷ "지점 삽입 실패 - 남은 이미지 수 < 10" ∷ []

abbrev flag_90 : List String
flag_90 =
    "AGV 처리 실패" ∷ "해당 경로를 찾을 수 없음" ∷ "모드 오류" ∷ "새 파일 열기 실패" ∷ "원본 파일 열기 실패" ∷ "원본 파일 삭제 실패" ∷ []

unfoldable pub flag_map : List (Text × List String)
flag_map =
    (code_at 0, flag_03)
    ∷ (code_at 72, flag_72)
    ∷ (code_at 6, flag_06)
    ∷ (code_at 7, flag_07)
    ∷ (code_at 8, flag_08)
    ∷ (code_at 27, flag_0a)
    ∷ (code_at 16, flag_11)
    ∷ (code_at 5, flag_12)
    ∷ (code_at 18, flag_22)
    ∷ (code_at 17, flag_23)
    ∷ (code_at 21, flag_28)
    ∷ (code_at 22, flag_29)
    ∷ (code_at 23, flag_30)
    ∷ (code_at 24, flag_31)
    ∷ (code_at 26, flag_35)
    ∷ (code_at 28, flag_36)
    ∷ (code_at 31, flag_49)
    ∷ (code_at 30, flag_51)
    ∷ (code_at 61, flag_53)
    ∷ (code_at 37, flag_54)
    ∷ (code_at 40, flag_58)
    ∷ (code_at 41, flag_59)
    ∷ (code_at 42, flag_60)
    ∷ (code_at 43, flag_61)
    ∷ (code_at 67, flag_73)
    ∷ (code_at 89, flag_90)
    ∷ []

-- `_FLAG_MAP.get(fun_code)`
unfoldable pub flags_in : List (Text × List String) → Text → Option (List String)
flags_in [] k = none
flags_in ((j, v) ∷ rest) k = if text_eq j k then some v else flags_in rest k
